-- ===== src/Conversation/Members.antt =====
-- internal/conversation/repository/membership.go: the commands on memberships.
pub mod Frame
pub mod Moderators
use al_ur_messenger.Prelude.{
  ℕ, suc, Bool, true, false, not, Option, none, some, List, [], ◌∷◌, ◌++◌, if◌then◌else◌, is_none,
  is_some,
}
use al_ur_messenger.Prelude.Table.{find, update_first}
use al_ur_messenger.Result.{ok, or_fail, not_found}
use al_ur_messenger.Runtime.{Runtime}
use al_ur_messenger.Identity.{Actor}
use al_ur_messenger.Store.{Db, MemberRow, Role, EventType, Payload, member_key}
use al_ur_messenger.Store.Tx.{Tx, Query, ◌>>=◌, ◌>>◌, query, check, write, commit}
use al_ur_messenger.Conversation.{
  AddMembers, MemberPatch, Trace, validate_add, validate_member_patch,
}
use al_ur_messenger.Conversation.Membership.{add_access, patch_access, remove_access}
use al_ur_messenger.Conversation.Audit.{audit}

-- The INSERT of AddMembers, and its ON CONFLICT … DO UPDATE.
abbrev pub new_member : Runtime → ℕ → ℕ → ℕ → Role → MemberRow
new_member rt project id user role = record {
  project_id = project;
  conversation_id = id;
  user_id = user;
  role = role;
  joined_at = rt.db_now;
  left_at = none;
  banned = false;
  muted = false;
  version = 1;
  read = 0;
  delivered = 0;
}

abbrev pub rejoin : MemberRow → MemberRow
rejoin m = record m { role = Role.member; left_at = none; banned = false; version = suc m.version }

abbrev pub has_left : MemberRow → Bool
has_left m = not (is_none m.left_at)

-- The upsert on the row that holds the key already.
abbrev pub upsert_at : Runtime → ℕ → ℕ → ℕ → List MemberRow → Option MemberRow → List MemberRow
upsert_at rt project id user ms none = ms ++ new_member rt project id user Role.member ∷ []
upsert_at rt project id user ms (some m) =
    if has_left m then update_first (member_key project id user) rejoin ms else ms

unfoldable pub upsert : Runtime → ℕ → ℕ → ℕ → Db → Db
upsert rt project id user db = record db {
  members = upsert_at rt project id user db.members (find (member_key project id user) db.members);
}

-- tag.RowsAffected() > 0
is_joining : ℕ → ℕ → ℕ → Query Bool
is_joining project id user db =
    ok (elim (find (member_key project id user) db.members) [ none ↦ true | some m ↦ has_left m ])

abbrev pub member_row : ℕ → ℕ → ℕ → Query MemberRow
member_row project id user db = or_fail (find (member_key project id user) db.members) not_found

audit_if : Bool → Runtime → Actor → ℕ → EventType → Payload → Trace → Tx (Unit {0})
audit_if false rt a id action fields trace = commit tt
audit_if true rt a id action fields trace = audit rt a id action fields trace

-- One turn of the loop of AddMembers.
unfoldable pub add_one : Runtime → Actor → ℕ → Trace → ℕ → Tx MemberRow
unfolding is_joining upsert audit_if
add_one rt a id trace user = do
  joined ← query (is_joining a.project_id id user)
  write (upsert rt a.project_id id user)
  audit_if joined rt a id EventType.members_added (Payload.user_ids user) trace
  m ← query (member_row a.project_id id user)
  commit m

unfoldable pub add_each : Runtime → Actor → ℕ → Trace → List ℕ → Tx (List MemberRow)
unfolding add_one
add_each rt a id trace [] = commit []
add_each rt a id trace (user ∷ users) = do
  m ← add_one rt a id trace user
  items ← add_each rt a id trace users
  commit (m ∷ items)

-- Store.AddMembers
unfoldable pub add_members : Runtime → Actor → ℕ → AddMembers → Trace → Tx (List MemberRow)
unfolding add_each add_access validate_add
add_members rt a id p trace = do
  check (validate_add rt p)
  allowed ← query (add_access a id p)
  add_each rt a id trace p.user_ids

abbrev new_role : Role → Option (Option Role) → Role
new_role old (some (some r)) = r
new_role old _ = old

abbrev new_flag : Bool → Option Bool → Bool
new_flag old none = old
new_flag old (some b) = b

-- SET role=COALESCE($4,role),banned=COALESCE($5,banned),muted=COALESCE($6,muted),version=version+1
abbrev pub patched : MemberPatch → MemberRow → MemberRow
patched p m = record m {
  role = new_role m.role p.role;
  banned = new_flag m.banned p.banned;
  muted = new_flag m.muted p.muted;
  version = suc m.version;
}

unfoldable pub update_member : ℕ → ℕ → ℕ → (MemberRow → MemberRow) → Db → Db
update_member project id user f db = record db {
  members = update_first (member_key project id user) f db.members;
}

-- Store.PatchMember
unfoldable pub patch_member : Runtime → Actor → ℕ → ℕ → MemberPatch → Trace → Tx MemberRow
unfolding update_member patch_access validate_member_patch
patch_member rt a id user p trace = do
  check (validate_member_patch p)
  before ← query (patch_access a id user p)
  write (update_member a.project_id id user (patched p))
  m ← query (member_row a.project_id id user)
  audit rt a id EventType.member_updated
      (Payload.member_change user (is_some p.role) (is_some p.banned) (is_some p.muted)) trace
  commit m

-- SET left_at=clock_timestamp(),version=version+1
abbrev pub departed : Runtime → MemberRow → MemberRow
departed rt m = record m { left_at = some rt.db_now; version = suc m.version }

-- Store.RemoveMember
unfoldable pub remove_member : Runtime → Actor → ℕ → ℕ → Trace → Tx (Unit {0})
unfolding update_member remove_access
remove_member rt a id user trace = do
  m ← query (remove_access a id user)
  write (update_member a.project_id id user (departed rt))
  audit rt a id EventType.member_left (Payload.member_ref user) trace
  commit tt
