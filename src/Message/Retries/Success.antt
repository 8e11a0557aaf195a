-- ===== src/Message/Retries/Success.antt =====
-- A repeated send that passes the checks of the moment succeeds.
use al_ur_messenger.Prelude.{ℕ, ◌≡◌, sym, ◌∙◌, ap, Bool, true, false, some, List, ltb, is_some}
use al_ur_messenger.Text.{Text, same_text}
use al_ur_messenger.Result.{ok, guard, idempotency_conflict}
use al_ur_messenger.Runtime.{Runtime}
use al_ur_messenger.Identity.{Actor}
use al_ur_messenger.Store.{Db, SendRow, Flag}
use al_ur_messenger.Store.Tx.{Post-ok, query_runs, check_runs, commit}
use al_ur_messenger.Message.{
  Command, plain, forwarding, Sent, Send, Message, Canonical, Outside, validate_send,
  validate_forward,
}
use al_ur_messenger.Message.Scan.{scan_id}
use al_ur_messenger.Message.Access.{activity_access, require_feature, require_if}
use al_ur_messenger.Message.Sending.{
  words_of, is_image, index_of, valid_send_row, valid_row, send, send_again, send_or_again,
}
use al_ur_messenger.Message.Forwarding.{forward, forward_or_again, send_command}
use al_ur_messenger.Message.Retries.{
  client_of, form_of, IsAnswered, sent-IsAnswered, send_command-IsCommitted, kept,
}

-- The checks that Store.Send makes of a command before it looks for a receipt.
pub record IsPassed (rt : Runtime) (o : Outside) (a : Actor) (conversation : ℕ) (p : Send)
    (system : Bool) (db : Db) : Type 0 where
  pub valid : validate_send rt system p ≡ ok tt
  pub index : Text × List Text
  pub indexed : index_of o a (words_of p) db ≡ ok index
  pub retention : ℕ
  pub active : activity_access a conversation system true db ≡ ok retention
  pub replies : require_if (is_some p.reply_to) a.project_id Flag.allow_reply db ≡ ok tt
  pub images : require_if (is_image p.type) a.project_id Flag.allow_images db ≡ ok tt

pub record IsForwardPassed (rt : Runtime) (a : Actor) (target client source : ℕ)
    (mixed system : Bool) (db : Db) : Type 0 where
  pub valid : validate_forward rt system mixed client source ≡ ok tt
  pub retention : ℕ
  pub active : activity_access a target false true db ≡ ok retention
  pub enabled : require_feature a.project_id Flag.allow_forward db ≡ ok tt

abbrev pub IsAdmitted : Runtime → Outside → Actor → ℕ → Command → Bool → Db → Type 0
IsAdmitted rt o a conversation (plain p) system db = IsPassed rt o a conversation p system db
IsAdmitted rt o a conversation (forwarding mixed client source) system db =
    IsForwardPassed rt a conversation client source mixed system db

abbrev pub again : Message → SendRow → Sent
again m s = record { message = m; deduplicated = true; dedup_expires_at = s.expires_at }

send_again_runs :
    (rt : Runtime) (o : Outside) (a : Actor) (c : Canonical) (s : SendRow) (db : Db) (f : Text)
    (m : Message)
    → o.crypto.fingerprint a.project_id s.fingerprint_version c ≡ ok f
    → same_text f s.fingerprint ≡ true
    → scan_id rt o a.project_id s.message_id db ≡ ok m
    → send_again rt o a c s db ≡ ok (again m s, db)
unfolding send_again commit
send_again_runs rt o a c s db f m printed same shown =
    query_runs _ _ f db printed
    ∙ (check_runs _ _ db (ap (λ b. guard b idempotency_conflict) same) ∙ query_runs _ _ m db shown)

module _ (rt : Runtime) (o : Outside) (a : Actor) (conversation : ℕ) (system : Bool) (db : Db)
    (s : SendRow) (f : Text) (m : Message) where
  command_runs :
      (p : Command)
      → IsAdmitted rt o a conversation p system db
      → valid_send_row rt a (client_of p) db ≡ some s
      → o.crypto.fingerprint a.project_id s.fingerprint_version (form_of conversation p) ≡ ok f
      → same_text f s.fingerprint ≡ true
      → scan_id rt o a.project_id s.message_id db ≡ ok m
      → send_command rt o a conversation p system db ≡ ok (again m s, db)
  unfolding send_command send send_or_again forward forward_or_again valid_row
  command_runs (plain p) h there printed same shown =
      check_runs _ _ db h.valid
      ∙ (query_runs _ _ h.index db h.indexed
          ∙ (query_runs _ _ h.retention db h.active
              ∙ (query_runs _ _ tt db h.replies
                  ∙ (query_runs _ _ tt db h.images
                      ∙ (query_runs _ _ (some s) db (ap ok there)
                          ∙ send_again_runs rt o a _ s db f m printed same shown)))))
  command_runs (forwarding mixed client source) h there printed same shown =
      check_runs _ _ db h.valid
      ∙ (query_runs _ _ h.retention db h.active
          ∙ (query_runs _ _ tt db h.enabled
              ∙ (query_runs _ _ (some s) db (ap ok there)
                  ∙ send_again_runs rt o a _ s db f m printed same shown)))

-- Once a send of any command has committed, the same command sent again by the same sender to the
-- same conversation, on the tables that the first one left and before the receipt expires, succeeds
-- as a duplicate, changes no table and shows the message of the first send as it is then, provided
-- that the checks before the look for a receipt pass and that the message can be shown.
pub send_command-again :
    (rt rt' : Runtime) (o : Outside) (a : Actor) (conversation : ℕ) (p : Command)
    (system system' : Bool) (db db' : Db) (sent : Sent) (m : Message)
    → send_command rt o a conversation p system db ≡ ok (sent, db')
    → ltb rt'.now sent.dedup_expires_at ≡ true
    → IsAdmitted rt' o a conversation p system' db'
    → scan_id rt' o a.project_id sent.message.id db' ≡ ok m
    → send_command rt' o a conversation p system' db'
      ≡ ok (
        record { message = m; deduplicated = true; dedup_expires_at = sent.dedup_expires_at },
        db',
      )
send_command-again rt rt' o a conversation p system system' db db' sent m h early admitted shown =
    let x : IsAnswered rt o a (client_of p) (form_of conversation p) db' sent =
      sent-IsAnswered rt o a (client_of p) (form_of conversation p) db sent db'
        (Post-ok _ _ sent db' (send_command-IsCommitted rt o a conversation p system db) h) in
    command_runs rt' o a conversation system' db' x.row x.candidate m p admitted
      (kept _ _ x.row x.found (ap (ltb rt'.now) (sym x.until) ∙ early)) x.printed x.same
      (ap (λ i. scan_id rt' o a.project_id i db') (sym x.names) ∙ shown)
    ∙ ap (λ t. ok (record { message = m; deduplicated = true; dedup_expires_at = t }, db'))
        (sym x.until)
