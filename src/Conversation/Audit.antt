-- ===== src/Conversation/Audit.antt =====
-- audit of internal/conversation/repository/postgres.go: the audit row and the event of one change.
use al_ur_messenger.Prelude.{ℕ, ◌≡◌, suc, List, [], ◌∷◌, ◌++◌}
use al_ur_messenger.Prelude.Table.{update_first}
use al_ur_messenger.Runtime.{Runtime}
use al_ur_messenger.Identity.{Actor}
use al_ur_messenger.Store.{Db, AuditRow, Action, EventType, Payload, Envelope, conversation_key}
use al_ur_messenger.Store.Tx.{
  Tx, ◌>>=◌, ◌>>◌, write, commit, draw, Post, draw->>=, write->>=, bind->>=, commit-Post,
}
use al_ur_messenger.Event.{append, record_event, bump, bump_event}
use al_ur_messenger.Event.Log.{IsAppended, append-IsAppended, IsLogged, IsAppended-IsLogged}
use al_ur_messenger.Conversation.{Trace}

unfoldable pub log_audit : AuditRow → Db → Db
log_audit r db = record db { audit_logs = db.audit_logs ++ r ∷ [] }

unfoldable pub audit : Runtime → Actor → ℕ → EventType → Payload → Trace → Tx (Unit {0})
unfolding log_audit
audit rt a id action fields trace = do
  key ← draw rt
  write (
      log_audit (record {
        id = key;
        project_id = a.project_id;
        actor_id = a.user_id;
        action = Action.conversation_action action fields;
        resource_id = id;
        ip = trace.ip;
        request_id = trace.request_id;
      }))
  e ← append rt a.project_id id action fields
  commit tt

-- An audit changes the audit table, and otherwise appends one event to the conversation.
pub record IsAudited (rt : Runtime) (project id : ℕ) (db db' : Db) : Type 0 where
  pub logs : List AuditRow
  pub event : Envelope
  pub appended :
      IsAppended rt project id (record db { audit_logs = logs; drawn = suc db.drawn }) event db'

pub audit-IsAudited :
    (rt : Runtime) (a : Actor) (id : ℕ) (action : EventType) (fields : Payload) (trace : Trace)
    (db : Db)
    → Post (λ _ db'. IsAudited rt a.project_id id db db') (audit rt a id action fields trace db)
unfolding audit log_audit
audit-IsAudited rt a id action fields trace db = draw->>= _ rt _ db (
    write->>= _ _ _ _ (
      bind->>= _ _ _ _ (append-IsAppended rt a.project_id id action fields _)
        λ e db' h. commit-Post _ _ _ (record { logs = _; event = e; appended = h })))

module _ (rt : Runtime) (project id : ℕ) (db db' : Db) (h : IsAudited rt project id db db') where
  pub audited_members : db'.members ≡ db.members
  unfolding record_event bump
  audited_members = rw h.appended.tables

  pub audited_conversations :
      db'.conversations ≡ update_first (conversation_key project id) bump_event db.conversations
  unfolding record_event bump
  audited_conversations = rw h.appended.tables (rw (h.appended.in_project, h.appended.of_aggregate))

  pub audited-IsLogged : IsLogged db → IsLogged db'
  audited-IsLogged v =
      IsAppended-IsLogged rt project id _ db' h.event h.appended
        (record { contiguous = v.contiguous; mirrored = v.mirrored })

  pub audited_messages : db'.messages ≡ db.messages
  unfolding record_event bump
  audited_messages = rw h.appended.tables

  pub audited_pairs : db'.direct_pairs ≡ db.direct_pairs
  unfolding record_event bump
  audited_pairs = rw h.appended.tables
