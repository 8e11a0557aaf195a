-- ===== src/Message/Relations.antt =====
-- Store.React and Store.SetPin of internal/message/repository/relations.go, with the services of
-- internal/message/relations.go.
use al_ur_messenger.Prelude.{
  ℕ, suc, Bool, true, false, ◌&&◌, ◌||◌, not, Option, some, List, [], ◌∷◌, ◌++◌, ltb, ◌==◌,
  if◌then◌else◌, length,
}
use al_ur_messenger.Prelude.Table.{exists, select, delete}
use al_ur_messenger.Result.{Result, ok, err, guard, or_fail, not_found, invalid}
use al_ur_messenger.Runtime.{Runtime, valid_id}
use al_ur_messenger.Identity.{Actor}
use al_ur_messenger.Store.{Db, MessageRow, ReactionRow, PinRow, Flag, EventType, message_key}
use al_ur_messenger.Store.Tx.{Tx, ◌>>=◌, ◌>>◌, query, check, write, commit}
use al_ur_messenger.Message.{Message, Outside}
use al_ur_messenger.Message.Scan.{scan_id, has_pin, reactions_of}
use al_ur_messenger.Message.Access.{relation_access, is_live}
use al_ur_messenger.Message.Mutations.{append_mutation, update_message, scope_is_valid}

-- NormalizeReaction, `reaction_emoji` being the generated table and `is_reaction_text` the test on
-- the length and the encoding.
abbrev pub normalize_reaction : Outside → ℕ → Result ℕ
normalize_reaction o value =
    if o.is_reaction_text value then or_fail (o.reaction_emoji value) invalid else err invalid

abbrev pub bumped : MessageRow → MessageRow
bumped m = record m { version = suc m.version }

-- relationResult
unfoldable pub relation_result :
    Runtime → Outside → Actor → MessageRow → EventType → Bool → Tx Message
unfolding update_message scan_id
relation_result rt o a r kind false = do
  shown ← query (scan_id rt o a.project_id r.id)
  commit shown
relation_result rt o a r kind true = do
  write (update_message a.project_id r.id bumped)
  shown ← query (scan_id rt o a.project_id r.id)
  e ← append_mutation rt a.project_id r.conversation_id kind shown
  commit shown

abbrev pub reaction_of : MessageRow → ℕ → ReactionRow → Bool
reaction_of m emoji r = r.project_id == m.project_id && r.message_id == m.id && r.reaction == emoji

abbrev own_reaction : Actor → MessageRow → ℕ → ReactionRow → Bool
own_reaction a m emoji r = reaction_of m emoji r && r.user_id == a.user_id

-- A kind that the message has, or one more below 32.
abbrev pub permits_reaction : MessageRow → ℕ → Db → Bool
permits_reaction m emoji db =
    exists (reaction_of m emoji) db.reactions || ltb (length (reactions_of m db)) 32

abbrev new_reaction : Actor → MessageRow → ℕ → ReactionRow
new_reaction a m emoji = record {
  project_id = m.project_id;
  conversation_id = m.conversation_id;
  message_id = m.id;
  user_id = a.user_id;
  reaction = emoji;
}

unfoldable pub insert_reaction : Actor → MessageRow → ℕ → Db → Db
insert_reaction a m emoji db = record db { reactions = db.reactions ++ new_reaction a m emoji ∷ [] }

unfoldable pub remove_reaction : Actor → MessageRow → ℕ → Db → Db
remove_reaction a m emoji db = record db {
  reactions = delete (own_reaction a m emoji) db.reactions;
}

-- Whether the statement meets a row, before the statement.
abbrev pub has_own : Actor → MessageRow → ℕ → Db → Bool
has_own a m emoji db = exists (own_reaction a m emoji) db.reactions

-- ON CONFLICT DO NOTHING on the one side, a DELETE of what is there on the other.
unfoldable pub change_reaction :
    Runtime → Outside → Actor → MessageRow → ℕ → Bool → Bool → Tx Message
unfolding insert_reaction remove_reaction relation_result
change_reaction rt o a m emoji true true = relation_result rt o a m EventType.reaction_created false
change_reaction rt o a m emoji true false = do
  write (insert_reaction a m emoji)
  relation_result rt o a m EventType.reaction_created true
change_reaction rt o a m emoji false true = do
  write (remove_reaction a m emoji)
  relation_result rt o a m EventType.reaction_deleted true
change_reaction rt o a m emoji false false =
    relation_result rt o a m EventType.reaction_deleted false

unfoldable pub react_live : Runtime → Outside → Actor → MessageRow → ℕ → Bool → Bool → Tx Message
unfolding change_reaction relation_result
react_live rt o a m emoji add true = do
  permitted ← query (λ db. guard (not add || permits_reaction m emoji db) invalid)
  present ← query (λ db. ok (has_own a m emoji db))
  change_reaction rt o a m emoji add present
react_live rt o a m emoji true false = query (λ _. err not_found)
react_live rt o a m emoji false false = relation_result rt o a m EventType.reaction_deleted false

-- Store.React
unfoldable pub react : Runtime → Outside → Actor → ℕ → Option ℕ → ℕ → Bool → Tx Message
unfolding relation_access react_live
react rt o a id scope value add = do
  emoji ← query (λ _. normalize_reaction o value)
  m ← query (relation_access a id scope Flag.allow_reactions false)
  react_live rt o a m emoji add (is_live rt m)

-- A pin that is there, or one more below 100 live ones.
abbrev pin_is_live : Runtime → List MessageRow → PinRow → Bool
pin_is_live rt ms p =
    exists
      (λ m.
        message_key p.project_id p.message_id m
        && m.conversation_id == p.conversation_id
        && is_live rt m)
      ms

abbrev pub live_pins : Runtime → ℕ → ℕ → Db → List PinRow
live_pins rt project conversation db =
    select
      (λ p.
        p.project_id == project
        && p.conversation_id == conversation
        && pin_is_live rt db.messages p)
      db.pins

abbrev pub permits_pin : Runtime → MessageRow → Db → Bool
permits_pin rt m db =
    exists (has_pin m) db.pins || ltb (length (live_pins rt m.project_id m.conversation_id db)) 100

abbrev new_pin : Runtime → Actor → MessageRow → PinRow
new_pin rt a m = record {
  project_id = m.project_id;
  conversation_id = m.conversation_id;
  message_id = m.id;
  pinned_by = a.user_id;
  created_at = rt.db_now;
}

unfoldable pub insert_pin : Runtime → Actor → MessageRow → Db → Db
insert_pin rt a m db = record db { pins = db.pins ++ new_pin rt a m ∷ [] }

unfoldable pub remove_pin : MessageRow → Db → Db
remove_pin m db = record db { pins = delete (has_pin m) db.pins }

unfoldable pub change_pin : Runtime → Outside → Actor → MessageRow → Bool → Bool → Tx Message
unfolding insert_pin remove_pin relation_result
change_pin rt o a m true true = relation_result rt o a m EventType.message_pinned false
change_pin rt o a m true false = do
  write (insert_pin rt a m)
  relation_result rt o a m EventType.message_pinned true
change_pin rt o a m false true = do
  write (remove_pin m)
  relation_result rt o a m EventType.message_unpinned true
change_pin rt o a m false false = relation_result rt o a m EventType.message_unpinned false

unfoldable pub pin_live : Runtime → Outside → Actor → MessageRow → Bool → Bool → Tx Message
unfolding change_pin relation_result
pin_live rt o a m add true = do
  permitted ← query (λ db. guard (not add || permits_pin rt m db) invalid)
  present ← query (λ db. ok (exists (has_pin m) db.pins))
  change_pin rt o a m add present
pin_live rt o a m true false = query (λ _. err not_found)
pin_live rt o a m false false = relation_result rt o a m EventType.message_unpinned false

-- Store.SetPin
unfoldable pub set_pin : Runtime → Outside → Actor → ℕ → Option ℕ → Bool → Tx Message
unfolding relation_access pin_live
set_pin rt o a id scope add = do
  m ← query (relation_access a id scope Flag.allow_pin true)
  pin_live rt o a m add (is_live rt m)

-- Service.React
unfoldable pub request_react : Runtime → Outside → Actor → ℕ → Option ℕ → ℕ → Bool → Tx Message
unfolding react
request_react rt o a id scope value add = do
  check (guard (valid_id rt id && scope_is_valid rt scope) invalid)
  emoji ← query (λ _. normalize_reaction o value)
  react rt o a id scope emoji add

-- Service.SetPin
unfoldable pub request_set_pin : Runtime → Outside → Actor → ℕ → ℕ → Bool → Tx Message
unfolding set_pin
request_set_pin rt o a conversation id add = do
  check (guard (valid_id rt id && valid_id rt conversation) invalid)
  set_pin rt o a id (some conversation) add
