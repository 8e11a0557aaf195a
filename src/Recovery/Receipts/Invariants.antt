-- ===== src/Recovery/Receipts/Invariants.antt =====
-- A receipt keeps the moderators, the changefeed and the positions.
use al_ur_messenger.Prelude.{ℕ, ◌≡◌, refl, inl, true, false, some, arith, ◌≤◌, ltb}
use al_ur_messenger.Prelude.Table.{find, update_first-All, find_sound}
use al_ur_messenger.Runtime.{Runtime}
use al_ur_messenger.Identity.{Actor}
use al_ur_messenger.Store.{Db, MemberRow, conversation_key, member_key}
use al_ur_messenger.Store.Tx.{Post, Post-mono}
use al_ur_messenger.Event.{bump_event}
use al_ur_messenger.Event.Log.{
  IsLogged, IsAppended-IsLogged, appended_members, appended_conversations,
}
use al_ur_messenger.Conversation.Logging.{same_log}
use al_ur_messenger.Conversation.Members.{update_member}
use al_ur_messenger.Conversation.Members.Moderators.{
  HasModerators, AreModerated-update_member, AreModerated-update_conversation,
}
use al_ur_messenger.Recovery.Receipts.{Checkpoint, ReceiptKind, advanced, receipt}
use al_ur_messenger.Recovery.Receipts.Facts.{
  CanReceive, IsReceived, same, moved, receipt-IsReceived,
}
use al_ur_messenger.Recovery.Receipts.Positions.{
  HasPositions, IsPlaced, AllPlaced-conversations, last_message, last_message-update_first,
}

-- The row under the key has the key.
member_key-fields :
    (project id user : ℕ) (m : MemberRow)
    → member_key project id user m ≡ true
    → (m.project_id ≡ project) × (m.conversation_id ≡ id)
member_key-fields project id user m h = (ground arith, ground arith)

reached_lem : (sequence last : ℕ) → ltb last sequence ≡ false → sequence ≤ last
reached_lem sequence last h = ground arith

-- Reading or receiving up to a message that is there keeps the order of the positions.
advanced-IsPlaced :
    (a : Actor) (id : ℕ) (kind : ReceiptKind) (sequence : ℕ) (db : Db) (m r : MemberRow)
    → CanReceive a id sequence db m
    → find (member_key a.project_id id a.user_id) db.members ≡ some r
    → IsPlaced db.conversations r
    → IsPlaced db.conversations (advanced kind sequence r)
advanced-IsPlaced a id kind sequence db m r can found v =
    let (p, i) =
      member_key-fields a.project_id id a.user_id r
        (find_sound (member_key a.project_id id a.user_id) db.members r found) in
    let last : last_message r.project_id r.conversation_id db.conversations
        ≡ can.conversation.message_sequence =
      rw (p, i, can.found) refl in
    let reached : sequence ≤ can.conversation.message_sequence =
      reached_lem sequence can.conversation.message_sequence can.reached in
    (go kind v.0, omega arith)
  where
    go :
        (k : ReceiptKind)
        → r.read ≤ r.delivered
        → (advanced k sequence r).read ≤ (advanced k sequence r).delivered
    go ReceiptKind.read_receipt h = omega arith
    go ReceiptKind.delivered_receipt h = omega arith

module _ (rt : Runtime) (a : Actor) (id : ℕ) (kind : ReceiptKind) (sequence : ℕ) (db : Db)
    (m : MemberRow) (can : CanReceive a id sequence db m) where
  received-HasPositions :
      (c : Checkpoint) (db' : Db)
      → IsReceived rt a id kind sequence db m c db'
      → HasPositions db
      → HasPositions db'
  unfolding update_member
  received-HasPositions c db' (same h) v = v
  received-HasPositions c db' (moved e h appended) v =
      rw
        (
          appended_members rt a.project_id id _ _ e appended,
          appended_conversations rt a.project_id id _ _ e appended,
        )
        (AllPlaced-conversations db.conversations _ _
          (λ p i.
            let same_last =
              last_message-update_first (conversation_key a.project_id id) bump_event
                db.conversations p i (λ c. refl) (λ c. refl) (λ c. refl) in
            omega arith)
          (update_first-All (IsPlaced db.conversations) (member_key a.project_id id a.user_id)
            (advanced kind sequence) db.members
            (λ r found. advanced-IsPlaced a id kind sequence db m r can found) v))

  received-IsLogged :
      (c : Checkpoint) (db' : Db)
      → IsReceived rt a id kind sequence db m c db'
      → IsLogged db
      → IsLogged db'
  unfolding update_member
  received-IsLogged c db' (same h) v = v
  received-IsLogged c db' (moved e h appended) v =
      IsAppended-IsLogged rt a.project_id id _ db' e appended
        (same_log db _ (λ p i. refl) refl refl v)

  received-HasModerators :
      (c : Checkpoint) (db' : Db)
      → IsReceived rt a id kind sequence db m c db'
      → HasModerators db
      → HasModerators db'
  unfolding update_member
  received-HasModerators c db' (same h) v = v
  received-HasModerators c db' (moved e h appended) v =
      rw
        (
          appended_members rt a.project_id id _ _ e appended,
          appended_conversations rt a.project_id id _ _ e appended,
        )
        (AreModerated-update_conversation _ bump_event db.conversations _ (λ c. refl) (λ c. refl)
          (λ c. refl)
          (AreModerated-update_member a.project_id id a.user_id (advanced kind sequence)
            db.conversations db.members (λ x. refl) (λ x. refl) (λ x found acts. inl acts) v))

module _ (rt : Runtime) (a : Actor) (id : ℕ) (kind : ReceiptKind) (sequence : ℕ) (db : Db) where
  pub receipt-HasPositions :
      HasPositions db → Post (λ _ db'. HasPositions db') (receipt rt a id kind sequence db)
  receipt-HasPositions v =
      Post-mono _ _ _ (receipt-IsReceived rt a id kind sequence db)
        λ c db' h. received-HasPositions rt a id kind sequence db h.0 h.1 c db' h.2 v

  pub receipt-IsLogged :
      IsLogged db → Post (λ _ db'. IsLogged db') (receipt rt a id kind sequence db)
  receipt-IsLogged v =
      Post-mono _ _ _ (receipt-IsReceived rt a id kind sequence db)
        λ c db' h. received-IsLogged rt a id kind sequence db h.0 h.1 c db' h.2 v

  pub receipt-HasModerators :
      HasModerators db → Post (λ _ db'. HasModerators db') (receipt rt a id kind sequence db)
  receipt-HasModerators v =
      Post-mono _ _ _ (receipt-IsReceived rt a id kind sequence db)
        λ c db' h. received-HasModerators rt a id kind sequence db h.0 h.1 c db' h.2 v
