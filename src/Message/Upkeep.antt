-- ===== src/Message/Upkeep.antt =====
-- The message commands keep the changefeed, the moderators and the read positions.
use al_ur_messenger.Prelude.{ℕ, ◌≤◌, refl, arith, inl, inr, List, [], ◌∷◌, Bool-cases, ap}
use al_ur_messenger.Prelude.Table.{find, update_first}
use al_ur_messenger.Store.{ConversationRow, conversation_key}
use al_ur_messenger.Event.{bump_event}
use al_ur_messenger.Event.Log.{
  IsLogged, IsAppended-IsLogged, appended_members, appended_conversations, high, high-update_first,
}
use al_ur_messenger.Conversation.Logging.{same_log}
use al_ur_messenger.Conversation.Commands.{update_conversation}
use al_ur_messenger.Conversation.Members.Moderators.{
  HasModerators, AreModerated-update_conversation,
}
use al_ur_messenger.Recovery.Receipts.Positions.{
  HasPositions, AllPlaced-conversations, last_message, last_message-update_first,
}
use al_ur_messenger.Message.Sending.{numbered, insert_message}
use al_ur_messenger.Message.Mutations.{update_message}
use al_ur_messenger.Message.Stable.{IsStable}

pub IsLogged-IsStable : IsStable IsLogged
unfolding update_conversation update_message insert_message
IsLogged-IsStable = record {
  unread = λ db db' h v. same_log db db' (λ p i. ap (high p i) h.conversations) h.events h.outbox v;
  touched = λ project id f db t v.
      same_log db (update_conversation project id f db)
        (λ p i.
          high-update_first (conversation_key project id) f db.conversations p i t.project t.id
            t.events)
        refl refl v;
  rewritten = λ project id f db w alive v.
      same_log db (update_message project id f db) (λ p i. refl) refl refl v;
  inserted = λ rt m c db found next first undeleted fresh v.
      same_log db
        (insert_message m (update_conversation m.project_id m.conversation_id (numbered rt) db))
        (λ p i.
          high-update_first (conversation_key m.project_id m.conversation_id) (numbered rt)
            db.conversations p i (λ c. refl) (λ c. refl) (λ c. refl))
        refl refl v;
  appended = λ rt project id db db' e h v. IsAppended-IsLogged rt project id db db' e h v;
}

pub HasModerators-IsStable : IsStable HasModerators
unfolding update_conversation update_message insert_message
HasModerators-IsStable = record {
  unread = λ db db' h v. rw (h.conversations, h.members) v;
  touched = λ project id f db t v.
      AreModerated-update_conversation _ f db.conversations db.members t.project t.id t.type v;
  rewritten = λ project id f db w alive v. v;
  inserted = λ rt m c db found next first undeleted fresh v.
      AreModerated-update_conversation _ (numbered rt) db.conversations db.members (λ c. refl)
        (λ c. refl) (λ c. refl) v;
  appended = λ rt project id db db' e h v.
      rw
        (appended_members rt project id db db' e h, appended_conversations rt project id db db' e h)
        (AreModerated-update_conversation _ bump_event db.conversations db.members (λ c. refl)
          (λ c. refl) (λ c. refl) v);
}

-- A message more moves no last message back.
last_message-numbered_le :
    (rt : _) (q : ConversationRow → _) (cs : List ConversationRow) (project id : ℕ)
    → last_message project id cs ≤ last_message project id (update_first q (numbered rt) cs)
unfolding find update_first
last_message-numbered_le rt q [] project id = omega arith
last_message-numbered_le rt q (c ∷ cs) project id = elim (Bool-cases (q c)) [
  | inl hit ↦ rw hit (ground arith)
  | inr miss ↦ rw miss (ground (arith, last_message-numbered_le rt q cs project id))
]

pub HasPositions-IsStable : IsStable HasPositions
unfolding update_conversation update_message insert_message
HasPositions-IsStable = record {
  unread = λ db db' h v. rw (h.conversations, h.members) v;
  touched = λ project id f db t v.
      AllPlaced-conversations db.conversations _ db.members
        (λ p i.
          let same_last =
            last_message-update_first (conversation_key project id) f db.conversations p i t.project
              t.id t.messages in
          omega arith)
        v;
  rewritten = λ project id f db w alive v. v;
  inserted = λ rt m c db found next first undeleted fresh v.
      AllPlaced-conversations db.conversations _ db.members
        (last_message-numbered_le rt _ db.conversations) v;
  appended = λ rt project id db db' e h v.
      rw
        (appended_members rt project id db db' e h, appended_conversations rt project id db db' e h)
        (AllPlaced-conversations db.conversations _ db.members
          (λ p i.
            let same_last =
              last_message-update_first (conversation_key project id) bump_event db.conversations p
                i (λ c. refl) (λ c. refl) (λ c. refl) in
            omega arith)
          v);
}
