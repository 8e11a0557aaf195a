-- ===== src/Message/Stable.antt =====
-- A property of the tables that every statement of the message commands keeps holds after each of
-- the commands.
pub mod Sending
pub mod Mutations
pub mod Relations
pub mod Forwarding
use al_ur_messenger.Prelude.{
  ℕ, suc, ◌≡◌, refl, sym, subst, is_some, ◌==◌, Bool, true, false, Option, some, none, List,
}
use al_ur_messenger.Prelude.Table.{find, exists, find_sound}
use al_ur_messenger.Text.{Text}
use al_ur_messenger.Result.{or_fail-eq-ok}
use al_ur_messenger.Runtime.{Runtime}
use al_ur_messenger.Identity.{Actor}
use al_ur_messenger.Store.{
  Db, ConversationRow, MessageRow, SendRow, SearchRow, EventType, Envelope, conversation_key,
  message_key,
}
use al_ur_messenger.Store.Tx.{
  Post, query->>=, check->>=, draw->>=, write->>=, bind->>=, commit-Post, refuse-Post, drawn_once,
}
use al_ur_messenger.Event.{conversation_row}
use al_ur_messenger.Event.Log.{IsAppended, append-IsAppended}
use al_ur_messenger.Conversation.Commands.{update_conversation}
use al_ur_messenger.Message.Scan.Facts.{message_key-id}
use al_ur_messenger.Message.{Send, Sent, Edit, Message, Outside}
use al_ur_messenger.Message.Sending.{
  numbered, with_last, new_message, send, send_new, send_again, send_or_again, store_message,
  request_send, insert_message, drop_send, attach, insert_search, insert_send, is_image, first_id,
}
use al_ur_messenger.Message.Mutations.{
  edit, edited, delete_message, delete_row, delete_unless, wiped, update_message, drop_search,
  drop_relations, set_last, relast, last_live, request_edit, request_delete,
}
use al_ur_messenger.Message.Relations.{
  react, react_live, change_reaction, relation_result, bumped, insert_reaction, remove_reaction,
  set_pin, pin_live, change_pin, insert_pin, remove_pin, request_react, request_set_pin,
}

-- The same rows in every table that the properties read.
pub record SameRead (db db' : Db) : Type 0 where
  pub conversations : db'.conversations ≡ db.conversations
  pub members : db'.members ≡ db.members
  pub messages : db'.messages ≡ db.messages
  pub events : db'.events ≡ db.events
  pub outbox : db'.outbox ≡ db.outbox

-- An update of a conversation that leaves its identity and its counters.
pub record IsTouch (f : ConversationRow → ConversationRow) : Type 0 where
  pub project : (c : ConversationRow) → (f c).project_id ≡ c.project_id
  pub id : (c : ConversationRow) → (f c).id ≡ c.id
  pub type : (c : ConversationRow) → (f c).type ≡ c.type
  pub events : (c : ConversationRow) → (f c).event_sequence ≡ c.event_sequence
  pub messages : (c : ConversationRow) → (f c).message_sequence ≡ c.message_sequence

-- The message is there and has not been deleted.
pub record IsAlive (project id : ℕ) (ms : List MessageRow) : Type 0 where
  pub row : MessageRow
  pub found : find (message_key project id) ms ≡ some row
  pub live : is_some row.deleted_at ≡ false

-- The row that an identifier has found is the one that its own identifier finds.
pub found-IsAlive :
    (project id : ℕ) (r : MessageRow) (ms : List MessageRow)
    → find (message_key project id) ms ≡ some r
    → is_some r.deleted_at ≡ false
    → IsAlive project r.id ms
found-IsAlive project id r ms found live = record {
  row = r;
  found =
      subst (λ i. find (message_key project i) ms ≡ some r)
        (sym (message_key-id project id r (find_sound (message_key project id) ms r found))) found;
  live = live;
}

-- An update of a message that leaves its place and gives it the next version.
pub record IsRewrite (f : MessageRow → MessageRow) : Type 0 where
  pub project : (m : MessageRow) → (f m).project_id ≡ m.project_id
  pub id : (m : MessageRow) → (f m).id ≡ m.id
  pub conversation : (m : MessageRow) → (f m).conversation_id ≡ m.conversation_id
  pub sequence : (m : MessageRow) → (f m).sequence ≡ m.sequence
  pub sender : (m : MessageRow) → (f m).sender_id ≡ m.sender_id
  pub type : (m : MessageRow) → (f m).type ≡ m.type
  pub version : (m : MessageRow) → (f m).version ≡ suc m.version

pub record IsStable (P : Db → Type 0) : Type 0 where
  pub unread : (db db' : Db) → SameRead db db' → P db → P db'
  pub touched :
      (project id : ℕ) (f : ConversationRow → ConversationRow) (db : Db)
      → IsTouch f
      → P db
      → P (update_conversation project id f db)
  pub rewritten :
      (project id : ℕ) (f : MessageRow → MessageRow) (db : Db)
      → IsRewrite f
      → IsAlive project id db.messages
      → P db
      → P (update_message project id f db)
  pub inserted :
      (rt : Runtime) (m : MessageRow) (c : ConversationRow) (db : Db)
      → find (conversation_key m.project_id m.conversation_id) db.conversations ≡ some c
      → m.sequence ≡ suc c.message_sequence
      → m.version ≡ 1
      → m.deleted_at ≡ none
      → exists (λ x. x.id == m.id) db.messages ≡ false
      → P db
      → P (insert_message m (update_conversation m.project_id m.conversation_id (numbered rt) db))
  pub appended :
      (rt : Runtime) (project id : ℕ) (db db' : Db) (e : Envelope)
      → IsAppended rt project id db e db'
      → P db
      → P db'

pub same_read :
    (db db' : Db)
    → db'.conversations ≡ db.conversations
    → db'.members ≡ db.members
    → db'.messages ≡ db.messages
    → db'.events ≡ db.events
    → db'.outbox ≡ db.outbox
    → SameRead db db'
same_read db db' c m ms e b = record {
  conversations = c;
  members = m;
  messages = ms;
  events = e;
  outbox = b;
}

pub with_last-IsTouch : (id : Option ℕ) → IsTouch (with_last id)
with_last-IsTouch id = record {
  project = λ c. refl;
  id = λ c. refl;
  type = λ c. refl;
  events = λ c. refl;
  messages = λ c. refl;
}

pub relast-IsTouch : (rt : Runtime) (id : Option ℕ) → IsTouch (relast rt id)
relast-IsTouch rt id = record {
  project = λ c. refl;
  id = λ c. refl;
  type = λ c. refl;
  events = λ c. refl;
  messages = λ c. refl;
}

pub edited-IsRewrite : (rt : Runtime) (s : _) → IsRewrite (edited rt s)
edited-IsRewrite rt s = record {
  project = λ m. refl;
  id = λ m. refl;
  conversation = λ m. refl;
  sequence = λ m. refl;
  sender = λ m. refl;
  type = λ m. refl;
  version = λ m. refl;
}

pub wiped-IsRewrite : (rt : Runtime) → IsRewrite (wiped rt)
wiped-IsRewrite rt = record {
  project = λ m. refl;
  id = λ m. refl;
  conversation = λ m. refl;
  sequence = λ m. refl;
  sender = λ m. refl;
  type = λ m. refl;
  version = λ m. refl;
}

pub bumped-IsRewrite : IsRewrite bumped
bumped-IsRewrite = record {
  project = λ m. refl;
  id = λ m. refl;
  conversation = λ m. refl;
  sequence = λ m. refl;
  sender = λ m. refl;
  type = λ m. refl;
  version = λ m. refl;
}

module _ (P : Db → Type 0) (stable : IsStable P) (rt : Runtime) (o : Outside) (a : Actor) where
  -- A statement on the other tables.
  skip : (db db' : Db) → SameRead db db' → P db → P db'
  skip = stable.unread

  pub attach-keeps : (b : Bool) (id : ℕ) (m : MessageRow) (db : Db) → P db → P (attach b id m db)
  unfolding attach
  attach-keeps false id m db h = h
  attach-keeps true id m db h = skip db _ (same_read db _ refl refl refl refl refl) h

  pub drawn-keeps : (db : Db) → P db → P (drawn_once db)
  drawn-keeps db h = skip db _ (same_read db _ refl refl refl refl refl) h

  pub insert_search-keeps : (r : SearchRow) (db : Db) → P db → P (insert_search r db)
  unfolding insert_search
  insert_search-keeps r db h = skip db _ (same_read db _ refl refl refl refl refl) h

  pub insert_send-keeps : (r : SendRow) (db : Db) → P db → P (insert_send r db)
  unfolding insert_send
  insert_send-keeps r db h = skip db _ (same_read db _ refl refl refl refl refl) h

  pub drop_search-keeps : (project id : ℕ) (db : Db) → P db → P (drop_search project id db)
  unfolding drop_search
  drop_search-keeps project id db h = skip db _ (same_read db _ refl refl refl refl refl) h

  pub drop_relations-keeps : (r : MessageRow) (db : Db) → P db → P (drop_relations r db)
  unfolding drop_relations
  drop_relations-keeps r db h = skip db _ (same_read db _ refl refl refl refl refl) h

  pub drop_send-keeps : (client : ℕ) (db : Db) → P db → P (drop_send a client db)
  unfolding drop_send
  drop_send-keeps client db h = skip db _ (same_read db _ refl refl refl refl refl) h

  pub insert_reaction-keeps :
      (r : MessageRow) (emoji : ℕ) (db : Db) → P db → P (insert_reaction a r emoji db)
  unfolding insert_reaction
  insert_reaction-keeps r emoji db h = skip db _ (same_read db _ refl refl refl refl refl) h

  pub remove_reaction-keeps :
      (r : MessageRow) (emoji : ℕ) (db : Db) → P db → P (remove_reaction a r emoji db)
  unfolding remove_reaction
  remove_reaction-keeps r emoji db h = skip db _ (same_read db _ refl refl refl refl refl) h

  pub insert_pin-keeps : (r : MessageRow) (db : Db) → P db → P (insert_pin rt a r db)
  unfolding insert_pin
  insert_pin-keeps r db h = skip db _ (same_read db _ refl refl refl refl refl) h

  pub remove_pin-keeps : (r : MessageRow) (db : Db) → P db → P (remove_pin r db)
  unfolding remove_pin
  remove_pin-keeps r db h = skip db _ (same_read db _ refl refl refl refl refl) h
