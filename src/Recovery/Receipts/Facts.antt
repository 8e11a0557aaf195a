-- ===== src/Recovery/Receipts/Facts.antt =====
-- What a receipt writes, and when it writes nothing.
use al_ur_messenger.Prelude.{ℕ, ◌≡◌, refl, ◌∙◌, true, false, some, arith, is_none, ltb}
use al_ur_messenger.Prelude.Table.{find, keep_if-eq-some}
use al_ur_messenger.Result.{ok, not_found, no_rows}
use al_ur_messenger.Runtime.{Runtime}
use al_ur_messenger.Identity.{Actor}
use al_ur_messenger.Store.{
  ProjectRow, SettingsRow, UserRow, Db, MemberRow, ConversationRow, conversation_key, member_key,
}
use al_ur_messenger.Store.Tx.{Post, Post-mono, write->>=, bind->>=, commit-Post}
use al_ur_messenger.Store.Query.{
  Gives, Gives->>=, row-Gives, check-Gives, pure-Gives, pure, row_hit, check_passes,
}
use al_ur_messenger.Event.Log.{IsAppended, append-IsAppended}
use al_ur_messenger.Conversation.Members.{update_member}
use al_ur_messenger.Conversation.Access.{active_project, settings_row}
use al_ur_messenger.Recovery.Access.{receipt_access, user_row}
use al_ur_messenger.Recovery.Receipts.{
  Checkpoint, ReceiptKind, checkpoint_of, advanced, is_unchanged, advance, receipt,
}

-- The caller is an active member who is not banned, and the sequence has been reached.
pub record CanReceive (a : Actor) (id sequence : ℕ) (db : Db) (m : MemberRow) : Type 0 where
  pub project : ProjectRow
  pub in_project : active_project a.project_id db ≡ some project
  pub settings : SettingsRow
  pub with_settings : settings_row a.project_id db ≡ some settings
  pub user : UserRow
  pub known : user_row a.project_id a.user_id db ≡ some user
  pub welcome : is_none user.banned_at ≡ true
  pub conversation : ConversationRow
  pub found : find (conversation_key a.project_id id) db.conversations ≡ some conversation
  pub live : is_none conversation.deleted_at ≡ true
  pub member : find (member_key a.project_id id a.user_id) db.members ≡ some m
  pub active : is_none m.left_at ≡ true
  pub allowed : m.banned ≡ false
  pub reached : ltb conversation.message_sequence sequence ≡ false

pub receipt_access-CanReceive :
    (a : Actor) (id sequence : ℕ) (db : Db)
    → Gives (CanReceive a id sequence db) (receipt_access a id sequence db)
unfolding receipt_access
receipt_access-CanReceive a id sequence db = row-Gives _ _ _ _ db λ p ep.
    row-Gives _ _ _ _ db λ s es. row-Gives _ _ _ _ db λ u eu. check-Gives _ _ _ db λ welcome.
      row-Gives _ _ _ _ db λ c live. row-Gives _ _ _ _ db λ m joined.
        check-Gives _ _ _ db λ allowed. check-Gives _ _ _ db λ reached.
          let (at, there) = keep_if-eq-some _ _ c live in
          let (of_actor, present) = keep_if-eq-some _ _ m joined in
          pure-Gives _ _ db (record {
            project = p;
            in_project = ep;
            settings = s;
            with_settings = es;
            user = u;
            known = eu;
            welcome = ground arith;
            conversation = c;
            found = at;
            live = there;
            member = of_actor;
            active = present;
            allowed = ground arith;
            reached = ground arith;
          })

-- Nothing else is checked.
pub receipt_access_ok :
    (a : Actor) (id sequence : ℕ) (db : Db) (m : MemberRow)
    → CanReceive a id sequence db m
    → receipt_access a id sequence db ≡ ok m
unfolding receipt_access pure
receipt_access_ok a id sequence db m h =
    row_hit db _ not_found _ h.project h.in_project
    ∙ (row_hit db _ not_found _ h.settings h.with_settings
        ∙ (row_hit db _ no_rows _ h.user h.known
            ∙ (check_passes db _ _ (rw h.welcome refl)
                ∙ (row_hit db _ not_found _ h.conversation (rw h.found (rw h.live refl))
                    ∙ (row_hit db _ not_found _ m (rw h.member (rw h.active refl))
                        ∙ (check_passes db _ _ (rw h.allowed refl)
                            ∙ check_passes db _ _ (rw h.reached refl)))))))

-- The tables after a receipt: unchanged if it moved nothing, or else one member row and one event.
pub data IsReceived (rt : Runtime) (a : Actor) (id : ℕ) (kind : ReceiptKind) (sequence : ℕ)
    (db : Db) (m : MemberRow) : Checkpoint → Db → Type 0 where
  same :
      is_unchanged kind sequence m ≡ true
      → IsReceived rt a id kind sequence db m (checkpoint_of m) db
  moved :
      {db' : Db}
      → (e : _) → is_unchanged kind sequence m ≡ false
      → IsAppended rt a.project_id id
          (update_member a.project_id id a.user_id (advanced kind sequence) db)
          e
          db'
      → IsReceived rt a id kind sequence db m (checkpoint_of (advanced kind sequence m)) db'

advance-IsReceived :
    (rt : Runtime) (a : Actor) (id : ℕ) (kind : ReceiptKind) (sequence : ℕ) (db : Db)
    (m : MemberRow) (b : _)
    → is_unchanged kind sequence m ≡ b
    → Post (IsReceived rt a id kind sequence db m) (advance rt a id kind sequence m b db)
unfolding advance
advance-IsReceived rt a id kind sequence db m true h = commit-Post _ _ db (same h)
advance-IsReceived rt a id kind sequence db m false h = write->>= _ _ _ db (
    bind->>= _ _ _ _ (append-IsAppended rt a.project_id id _ _ _)
      λ e db' appended. commit-Post _ _ db' (moved e h appended))

pub receipt-IsReceived :
    (rt : Runtime) (a : Actor) (id : ℕ) (kind : ReceiptKind) (sequence : ℕ) (db : Db)
    → Post
        (λ c db'.
          (m : MemberRow) × CanReceive a id sequence db m
          × IsReceived rt a id kind sequence db m c db')
        (receipt rt a id kind sequence db)
unfolding receipt
receipt-IsReceived rt a id kind sequence db =
    Gives->>= _ _ _ db (receipt_access-CanReceive a id sequence db) λ m can.
      Post-mono _ _ _ (advance-IsReceived rt a id kind sequence db m _ refl) λ c db' h. (m, can, h)
