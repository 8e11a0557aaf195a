-- ===== src/Event.antt =====
-- internal/event/repository/postgres.go: the changefeed of a conversation and its outbox.
pub mod Log
use al_ur_messenger.Prelude.{ℕ, suc, Bool, false, none, List, [], ◌∷◌, ◌++◌}
use al_ur_messenger.Prelude.Table.{find, update_first}
use al_ur_messenger.Result.{or_fail, no_rows}
use al_ur_messenger.Runtime.{Runtime}
use al_ur_messenger.Store.{
  Db, Envelope, EventRow, OutboxRow, ConversationRow, EventType, Payload, conversation_key,
}
use al_ur_messenger.Store.Tx.{Tx, Query, ◌>>=◌, ◌>>◌, query, write, commit, draw}

-- UPDATE … SET event_sequence=event_sequence+1, on the row that RETURNING reads.
abbrev pub bump_event : ConversationRow → ConversationRow
bump_event c = record c { event_sequence = suc c.event_sequence }

abbrev pub conversation_row : ℕ → ℕ → Query ConversationRow
conversation_row project id db =
    or_fail (find (conversation_key project id) db.conversations) no_rows

-- The rows that one event adds to both tables.
unfoldable pub record_event : ℕ → Envelope → Db → Db
record_event now e db = record db {
  events =
      db.events
      ++ record {
        id = e.id;
        project_id = e.project_id;
        conversation_id = e.aggregate_id;
        sequence = e.sequence;
        envelope = e;
      }
        ∷ [];
  outbox =
      db.outbox
      ++ record {
        event_id = e.id;
        project_id = e.project_id;
        conversation_id = e.aggregate_id;
        sequence = e.sequence;
        envelope = e;
        attempts = 0;
        next_attempt_at = now;
        published_at = none;
        failed = false;
      }
        ∷ [];
}

unfoldable pub bump : ℕ → ℕ → Db → Db
bump project id db = record db {
  conversations = update_first (conversation_key project id) bump_event db.conversations;
}

unfoldable pub append : Runtime → ℕ → ℕ → EventType → Payload → Tx Envelope
unfolding record_event bump
append rt project conversation kind payload = do
  id ← draw rt
  c ← query (conversation_row project conversation)
  write (bump project conversation)
  let e : Envelope = record {
    id = id;
    kind = kind;
    project_id = project;
    aggregate_id = conversation;
    sequence = suc c.event_sequence;
    occurred_at = rt.now;
    payload = payload;
  }
  write (record_event rt.db_now e)
  commit e
