-- ===== src/Recovery/Receipts/Positions.antt =====
-- The read position is behind the delivered one, and that behind the conversation's last message.
use al_ur_messenger.Prelude.{
  ℕ, ◌≡◌, refl, ◌≤◌, inl, inr, Bool, Option, some, none, List, [], ◌∷◌, ◌++◌, arith, Bool-cases,
  Option-cases,
}
use al_ur_messenger.Prelude.{All, All-mono}
use al_ur_messenger.Prelude.Table.{
  find, find-append, find-append_new, find-append_old, update_first, find-update_first_same,
}
use al_ur_messenger.Store.{Db, MemberRow, ConversationRow, conversation_key}

abbrev pub messages_of : Option ConversationRow → ℕ
messages_of none = 0
messages_of (some c) = c.message_sequence

-- The sequence of the last message of a conversation, 0 before it exists.
abbrev pub last_message : ℕ → ℕ → List ConversationRow → ℕ
last_message project id cs = messages_of (find (conversation_key project id) cs)

abbrev pub IsPlaced : List ConversationRow → MemberRow → Type 0
IsPlaced cs m =
    (m.read ≤ m.delivered) × (m.delivered ≤ last_message m.project_id m.conversation_id cs)

abbrev pub HasPositions : Db → Type 0
HasPositions db = All (IsPlaced db.conversations) db.members

-- Conversations may change as long as no last message moves back.
pub AllPlaced-conversations :
    (cs cs' : List ConversationRow) (ms : List MemberRow)
    → ((project id : ℕ) → last_message project id cs ≤ last_message project id cs')
    → All (IsPlaced cs) ms
    → All (IsPlaced cs') ms
AllPlaced-conversations cs cs' ms grows v =
    All-mono (IsPlaced cs) (IsPlaced cs') ms
      (λ m h. let up = grows m.project_id m.conversation_id in (h.0, omega arith)) v

pub last_message-update_first :
    (q : ConversationRow → Bool) (f : ConversationRow → ConversationRow) (cs : List ConversationRow)
    (project id : ℕ)
    → ((c : ConversationRow) → (f c).project_id ≡ c.project_id)
    → ((c : ConversationRow) → (f c).id ≡ c.id)
    → ((c : ConversationRow) → (f c).message_sequence ≡ c.message_sequence)
    → last_message project id (update_first q f cs) ≡ last_message project id cs
last_message-update_first q f cs project id hp hi hm =
    find-update_first_same messages_of (conversation_key project id) q f cs (λ c. rw (hp c, hi c))
      (λ c. rw (hm c))

-- A new conversation has no messages.
pub last_message-append :
    (c : ConversationRow) (project id : ℕ) (cs : List ConversationRow)
    → c.message_sequence ≡ 0
    → last_message project id (cs ++ c ∷ []) ≡ last_message project id cs
last_message-append c project id cs empty =
    elim (Option-cases (find (conversation_key project id) cs)) [
      | inr (d, old) ↦
          rw (old, find-append_old (conversation_key project id) cs (c ∷ []) d old) refl
      | inl absent ↦ elim (Bool-cases (conversation_key project id c)) [
        | inl hit ↦ rw (absent, find-append_new (conversation_key project id) cs c absent hit) empty
        | inr miss ↦ rw (find-append (conversation_key project id) cs c miss) refl
      ]
    ]
