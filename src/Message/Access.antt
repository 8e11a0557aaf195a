-- ===== src/Message/Access.antt =====
-- activityAccess and writeAccess of internal/message/repository/postgres.go, and requireFeature,
-- mutationAccess and relationAccess of its mutations.go and relations.go.
use al_ur_messenger.Prelude.{
  ℕ, Bool, true, false, ◌&&◌, ◌||◌, not, Option, none, some, List, [], ◌∷◌, ◌==◌, ltb, is_none,
}
use al_ur_messenger.Prelude.Table.{find, exists}
use al_ur_messenger.Text.{Text, same_text}
use al_ur_messenger.Result.{
  guard, fail_if, unauthenticated, not_found, banned, forbidden, feature_disabled, no_rows,
  content_rejected,
}
use al_ur_messenger.Runtime.{Runtime}
use al_ur_messenger.Identity.{Actor, Kind, is_system, is_human, is_bot}
use al_ur_messenger.Store.{
  Db, Flag, SettingsRow, MessageRow, MessageType, BlacklistRow, ConversationType, is_channel,
  is_direct, is_moderator, member_key,
}
use al_ur_messenger.Store.Tx.{Query}
use al_ur_messenger.Store.Query.{◌>>=◌, ◌>>◌, row, check, pure}
use al_ur_messenger.Conversation.Access.{
  project_row, settings_row, live_conversation, active_member,
}
use al_ur_messenger.Recovery.Access.{user_row}
use al_ur_messenger.Recovery.Replay.{any_conversation}
use al_ur_messenger.Message.{Outside}
use al_ur_messenger.Message.Scan.{message_row}

-- What the kind of the actor permits: an internal call, or an ordinary one.
abbrev kind_fits : Bool → Kind → Bool
kind_fits true k = is_system k
kind_fits false k = is_human k || is_bot k

abbrev bot_fits : Bool → Kind → Bool → Bool
bot_fits true k bots = true
bot_fits false k bots = not (is_bot k) || bots

unfoldable pub member_access : Actor → ℕ → ConversationType → Bool → Bool → Query (Unit {0})
member_access a id type true channel_write = pure tt
member_access a id type false channel_write = do
  m ← row (active_member a.project_id id a.user_id) not_found
  check (fail_if m.banned banned)
  check (fail_if (channel_write && is_channel type && not (is_moderator m.role)) forbidden)

-- activityAccess, with the retention in days.
unfoldable pub activity_access : Actor → ℕ → Bool → Bool → Query ℕ
unfolding member_access
activity_access a id system channel_write = do
  p ← row (project_row a.project_id) unauthenticated
  s ← row (settings_row a.project_id) unauthenticated
  check (guard p.active unauthenticated)
  u ← row (user_row a.project_id a.user_id) not_found
  check (guard (is_none u.banned_at) banned)
  check (guard (kind_fits system u.kind) forbidden)
  check (guard (bot_fits system u.kind (s.flags Flag.allow_bots)) feature_disabled)
  c ← row (live_conversation a.project_id id) not_found
  member_access a id c.type system channel_write
  pure s.retention_days

-- requireFeature
unfoldable pub require_feature : ℕ → Flag → Query (Unit {0})
require_feature project flag = do
  s ← row (settings_row project) no_rows
  check (guard (s.flags flag) feature_disabled)

-- `if condition { requireFeature }`
unfoldable pub require_if : Bool → ℕ → Flag → Query (Unit {0})
unfolding require_feature
require_if false project flag = pure tt
require_if true project flag = require_feature project flag

abbrev pub scope_fits : Option ℕ → ℕ → Bool
scope_fits none id = true
scope_fits (some s) id = s == id

abbrev pub is_system_message : MessageType → Bool
is_system_message MessageType.system_message = true
is_system_message _ = false

-- mutationAccess: the row of a message that its author may change.
unfoldable pub mutation_access : Actor → ℕ → Option ℕ → Flag → Query MessageRow
unfolding activity_access require_feature
mutation_access a id scope flag = do
  m ← row (message_row a.project_id id) not_found
  check (guard (scope_fits scope m.conversation_id) not_found)
  retention ← activity_access a m.conversation_id false true
  check (fail_if (not (m.sender_id == a.user_id) || is_system_message m.type) forbidden)
  require_feature a.project_id flag
  pure m

-- GROUP and CHANNEL have moderators, DIRECT has none.
unfoldable pub moderator_access : Actor → ℕ → Bool → Query (Unit {0})
moderator_access a id false = pure tt
moderator_access a id true = do
  c ← row (any_conversation a.project_id id) no_rows
  m ← row (λ db. find (member_key a.project_id id a.user_id) db.members) no_rows
  check (guard (not (is_direct c.type) && is_moderator m.role) forbidden)

abbrev pub is_live : Runtime → MessageRow → Bool
is_live rt m = is_none m.deleted_at && ltb rt.db_now m.expires_at

-- relationAccess: the row, which may be terminal.
unfoldable pub relation_access : Actor → ℕ → Option ℕ → Flag → Bool → Query MessageRow
unfolding activity_access moderator_access require_feature
relation_access a id scope flag pin = do
  m ← row (message_row a.project_id id) not_found
  check (guard (scope_fits scope m.conversation_id) not_found)
  retention ← activity_access a m.conversation_id false false
  moderator_access a m.conversation_id pin
  require_feature a.project_id flag
  pure m

-- normalized_word=ANY(words)
unfoldable pub mentions : BlacklistRow → List Text → Bool
unfolding exists
mentions b words = exists (same_text b.word) words

abbrev lists_word : ℕ → List Text → BlacklistRow → Bool
unfolding mentions
lists_word project words b = b.project_id == project && b.enabled && mentions b words

abbrev is_rejected : ℕ → List Text → SettingsRow → Db → Bool
is_rejected project words s db =
    s.blacklist_enabled && exists (lists_word project words) db.blacklist

unfoldable pub check_words : ℕ → List Text → Query (Unit {0})
unfolding mentions
check_words project [] = pure tt
check_words project (w ∷ ws) = do
  s ← row (settings_row project) no_rows
  λ db. fail_if (is_rejected project (w ∷ ws) s db) content_rejected

-- moderationrepo.CheckContent; the only blacklist_policy is "reject".
unfoldable pub check_content : Outside → ℕ → Text → Query (Unit {0})
unfolding check_words
check_content o project text = check_words project (o.words text)
