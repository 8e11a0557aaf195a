-- ===== src/Conversation/Commands.antt =====
-- internal/conversation/repository/postgres.go: Create and Patch.
pub mod Moderators
pub mod Direct
use al_ur_messenger.Prelude.{
  ℕ, suc, ◌+◌, Bool, true, false, ◌&&◌, not, Option, none, some, List, [], ◌∷◌, ◌++◌, map, ◌==◌,
  length, if◌then◌else◌, is_some,
}
use al_ur_messenger.Prelude.Table.{find, exists, update_first, order_by}
use al_ur_messenger.Text.{Text}
use al_ur_messenger.Result.{
  ok, guard, fail_if, dependency, banned, unsupported, forbidden, conflict, not_found,
}
use al_ur_messenger.Runtime.{Runtime}
use al_ur_messenger.Identity.{Actor}
use al_ur_messenger.Store.{
  Db, ConversationRow, ConversationType, PairRow, MemberRow, Role, EventType, Payload, is_direct,
  is_moderator, conversation_key,
}
use al_ur_messenger.Store.Tx.{Tx, Query, ◌>>=◌, ◌>>◌, query, check, write, commit, draw}
use al_ur_messenger.Conversation.{Create, Patch, Trace, validate_create, validate_patch}
use al_ur_messenger.Conversation.Access.{Conversation, lock_project, lock_users, get}
use al_ur_messenger.Conversation.Access.Patching.{patch_access}
use al_ur_messenger.Conversation.Audit.{audit}
use al_ur_messenger.Conversation.Members.{new_member}

abbrev pub is_direct_type : Option ConversationType → Bool
is_direct_type (some ConversationType.direct) = true
is_direct_type _ = false

-- `ids[0]` and `ids[1]` of the sorted participants.
abbrev pub low : List ℕ → ℕ
low [] = 0
low (x ∷ xs) = x

abbrev pub second : List ℕ → ℕ
second [] = 0
second (x ∷ xs) = low xs

abbrev pub pair_key : ℕ → List ℕ → PairRow → Bool
pair_key project ids r =
    r.project_id == project && r.low_user_id == low ids && r.high_user_id == second ids

-- The conversation that the pair has already.
unfoldable pub existing_pair : ℕ → List ℕ → Bool → Query (Option ℕ)
existing_pair project ids false db = ok none
existing_pair project ids true db = ok (elim (find (pair_key project ids) db.direct_pairs) [
  | none ↦ none
  | some r ↦ some r.conversation_id
])

abbrev pub type_or_group : Option ConversationType → ConversationType
type_or_group none = ConversationType.group
type_or_group (some t) = t

abbrev pub new_conversation : Runtime → Actor → ℕ → Create → ConversationRow
new_conversation rt a id p = record {
  id = id;
  project_id = a.project_id;
  type = type_or_group p.type;
  title = p.title;
  avatar_url = p.avatar_url;
  created_by = a.user_id;
  version = 1;
  updated_at = rt.db_now;
  deleted_at = none;
  message_sequence = 0;
  event_sequence = 0;
  last_message_id = none;
}

abbrev pub initial_role : Actor → Create → ℕ → Role
initial_role a p user =
    if user == a.user_id && not (is_direct_type p.type) then Role.moderator else Role.member

abbrev pub pair_row : Actor → ℕ → List ℕ → PairRow
pair_row a id ids = record {
  project_id = a.project_id;
  low_user_id = low ids;
  high_user_id = second ids;
  conversation_id = id;
}

abbrev pub new_pairs : Actor → ℕ → Create → List ℕ → List PairRow
new_pairs a id p ids = if is_direct_type p.type then pair_row a id ids ∷ [] else []

abbrev pub new_members : Runtime → Actor → ℕ → Create → List ℕ → List MemberRow
new_members rt a id p ids =
    map (λ user. new_member rt a.project_id id user (initial_role a p user)) ids

-- The rows of the conversation, of the pair of a DIRECT and of each participant.
unfoldable pub insert_conversation : Runtime → Actor → ℕ → Create → List ℕ → Db → Db
insert_conversation rt a id p ids db = record db {
  conversations = db.conversations ++ new_conversation rt a id p ∷ [];
  direct_pairs = db.direct_pairs ++ new_pairs a id p ids;
  members = db.members ++ new_members rt a id p ids;
}

-- The primary key refuses an identifier that is taken.
abbrev pub is_free : ℕ → Query (Unit {0})
is_free id db = fail_if (exists (λ c. c.id == id) db.conversations) dependency

unfoldable pub create_new : Runtime → Actor → Create → List ℕ → Trace → Tx (Conversation × Bool)
unfolding insert_conversation
create_new rt a p ids trace = do
  id ← draw rt
  free ← query (is_free id)
  write (insert_conversation rt a id p ids)
  audit rt a id EventType.conversation_created
      (Payload.creation (type_or_group p.type) (length ids)) trace
  c ← query (get a id)
  commit (c, true)

unfoldable pub create_or_get :
    Runtime → Actor → Create → List ℕ → Trace → Option ℕ → Tx (Conversation × Bool)
create_or_get rt a p ids trace (some id) = do c ← query (get a id); commit (c, false)
create_or_get rt a p ids trace none = create_new rt a p ids trace

abbrev pub participants : Actor → Create → List ℕ
participants a p = order_by (λ x. x) (a.user_id ∷ p.member_ids)

-- Store.Create
unfoldable pub create : Runtime → Actor → Create → Trace → Tx (Conversation × Bool)
unfolding validate_create lock_project lock_users existing_pair create_or_get create_new
create rt a p trace = do
  check (validate_create rt a.user_id p)
  locked ← query (lock_project a.project_id)
  users ← query (lock_users a (participants a p) true)
  existing ← query (existing_pair a.project_id (participants a p) (is_direct_type p.type))
  create_or_get rt a p (participants a p) trace existing

abbrev new_text : Text → Option Text → Text
new_text old none = old
new_text old (some v) = v

-- SET title=COALESCE($3,title),avatar_url=COALESCE($4,avatar_url),resource_version=…+1,updated_at=…
abbrev pub retitled : Runtime → Patch → ConversationRow → ConversationRow
retitled rt p c = record c {
  title = new_text c.title p.title;
  avatar_url = new_text c.avatar_url p.avatar_url;
  version = suc c.version;
  updated_at = rt.db_now;
}

unfoldable pub update_conversation : ℕ → ℕ → (ConversationRow → ConversationRow) → Db → Db
update_conversation project id f db = record db {
  conversations = update_first (conversation_key project id) f db.conversations;
}

-- Store.Patch
unfoldable pub patch : Runtime → Actor → ℕ → Patch → Trace → Tx Conversation
unfolding validate_patch patch_access update_conversation
patch rt a id p trace = do
  check (validate_patch rt p)
  before ← query (patch_access a id p.expected_version)
  write (update_conversation a.project_id id (retitled rt p))
  audit rt a id EventType.conversation_updated
      (Payload.changed_fields (is_some p.title) (is_some p.avatar_url)) trace
  c ← query (get a id)
  commit c
