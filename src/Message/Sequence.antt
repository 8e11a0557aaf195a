-- ===== src/Message/Sequence.antt =====
-- The messages of a conversation are numbered from 1 without a gap up to its message_sequence.
pub mod Upkeep
use al_ur_messenger.Prelude.{
  ℕ, suc, ◌≡◌, refl, ap, subst, ◌∙◌, inl, inr, ◌⊎◌, Bool, true, false, ◌&&◌, Option, none, some,
  List, [], ◌∷◌, ◌++◌, arith, Bool-cases, ◌==◌,
}
use al_ur_messenger.Prelude.Table.{
  find, select, update_first, find-update_first, find-update_first_other, select-append_hit,
  select-append_miss, find_sound,
}
use al_ur_messenger.Runtime.{Runtime}
use al_ur_messenger.Store.{Db, MessageRow, ConversationRow, conversation_key, message_of}
use al_ur_messenger.Event.{bump_event}
use al_ur_messenger.Event.Log.{IsAppended, appended_messages, appended_conversations, ==_pair}
use al_ur_messenger.Conversation.Commands.{update_conversation}
use al_ur_messenger.Recovery.Receipts.Positions.{
  last_message, messages_of, last_message-update_first,
}
use al_ur_messenger.Message.Sending.{numbered, insert_message}
use al_ur_messenger.Message.Mutations.{update_message}
use al_ur_messenger.Message.Stable.{SameRead, IsTouch, IsRewrite, IsStable}

-- The rows carry the sequences n+1, n+2, … up to m.
abbrev pub IsCounted : ℕ → List MessageRow → ℕ → Type 0
IsCounted n [] m = n ≡ m
IsCounted n (r ∷ rs) m = (r.sequence ≡ suc n) × IsCounted (suc n) rs m

abbrev pub thread : ℕ → ℕ → Db → List MessageRow
thread project id db = select (message_of project id) db.messages

abbrev pub IsSequenced : Db → Type 0
IsSequenced db =
    (project id : ℕ) → IsCounted 0 (thread project id db) (last_message project id db.conversations)

IsCounted-append :
    (n m : ℕ) (rs : List MessageRow) (r : MessageRow)
    → IsCounted n rs m
    → r.sequence ≡ suc m
    → IsCounted n (rs ++ r ∷ []) (suc m)
IsCounted-append n m [] r h e = (omega arith, omega arith)
IsCounted-append n m (x ∷ rs) r h e = (h.0, IsCounted-append (suc n) m rs r h.1 e)

-- An update that keeps the place of a message keeps the numbers.
IsCounted-update_first :
    (p q : MessageRow → Bool) (f : MessageRow → MessageRow) (rs : List MessageRow) (n m : ℕ)
    → ((r : MessageRow) → p (f r) ≡ p r)
    → ((r : MessageRow) → (f r).sequence ≡ r.sequence)
    → IsCounted n (select p rs) m
    → IsCounted n (select p (update_first q f rs)) m
unfolding select update_first
IsCounted-update_first p q f [] n m hp hs v = v
IsCounted-update_first p q f (r ∷ rs) n m hp hs v =
    go (Bool-cases (q r)) (Bool-cases (p r)) (λ k w. IsCounted-update_first p q f rs k m hp hs w)
  where
    go :
        (q r ≡ true) ⊎ (q r ≡ false)
        → (p r ≡ true) ⊎ (p r ≡ false)
        → ((k : ℕ) → IsCounted k (select p rs) m → IsCounted k (select p (update_first q f rs)) m)
        → IsCounted n (select p (update_first q f (r ∷ rs))) m
    go (inl hit) (inl mine) ih =
        let w : (r.sequence ≡ suc n) × IsCounted (suc n) (select p rs) m = rw mine at v in
        rw (hit, select, hp r, mine) (hs r ∙ w.0, w.1)
    go (inl hit) (inr other) ih = rw (hit, select, hp r, other) (rw other at v)
    go (inr miss) (inl mine) ih =
        let w : (r.sequence ≡ suc n) × IsCounted (suc n) (select p rs) m = rw mine at v in
        rw (miss, select, mine) (w.0, ih (suc n) w.1)
    go (inr miss) (inr other) ih =
        let w : IsCounted n (select p rs) m = rw other at v in rw (miss, select, other) (ih n w)

last_message-numbered :
    (rt : Runtime) (project id project' id' : ℕ) (cs : List ConversationRow) (c : ConversationRow)
    → (project == project' && id == id') ≡ true
    → find (conversation_key project id) cs ≡ some c
    → (last_message project' id' cs ≡ c.message_sequence)
      × (last_message project' id' (update_first (conversation_key project id) (numbered rt) cs)
          ≡ suc c.message_sequence)
last_message-numbered rt project id project' id' cs c hit found =
    let (p, q) = ==_pair project id project' id' hit in
    rw (← p, ← q)
      (
        ap messages_of found,
        ap messages_of (
            find-update_first (conversation_key project id) (numbered rt) cs c found
              (find_sound (conversation_key project id) cs c found)),
      )

last_message-other :
    (rt : Runtime) (project id project' id' : ℕ) (cs : List ConversationRow)
    → (project == project' && id == id') ≡ false
    → last_message project' id' (update_first (conversation_key project id) (numbered rt) cs)
      ≡ last_message project' id' cs
last_message-other rt project id project' id' cs h = ap messages_of (
    find-update_first_other (conversation_key project' id') (conversation_key project id)
      (numbered rt) cs (λ c k. ground arith) (λ c k. ground arith))

-- The next message joins its own conversation and no other.
insert-IsSequenced :
    (rt : Runtime) (r : MessageRow) (c : ConversationRow) (db : Db)
    → find (conversation_key r.project_id r.conversation_id) db.conversations ≡ some c
    → r.sequence ≡ suc c.message_sequence
    → IsSequenced db
    → IsSequenced
        (insert_message r (update_conversation r.project_id r.conversation_id (numbered rt) db))
unfolding insert_message update_conversation
insert-IsSequenced rt r c db found next v project id =
    elim (Bool-cases (r.project_id == project && r.conversation_id == id)) [
      | inl hit ↦
          let (before, after) =
            last_message-numbered rt _ _ project id db.conversations c hit found in
          rw (select-append_hit (message_of project id) db.messages r hit, after)
            (IsCounted-append 0 c.message_sequence _ r
              (subst (λ k. IsCounted 0 (thread project id db) k) before (v project id)) next)
      | inr miss ↦
          rw
            (
              select-append_miss (message_of project id) db.messages r miss,
              last_message-other rt _ _ project id db.conversations miss,
            )
            (v project id)
    ]

pub same_sequence :
    (db db' : Db)
    → ((project id : ℕ)
        → last_message project id db'.conversations ≡ last_message project id db.conversations)
    → db'.messages ≡ db.messages
    → IsSequenced db
    → IsSequenced db'
same_sequence db db' lasts messages v project id = rw (messages, lasts project id) (v project id)

appended-IsSequenced :
    (rt : Runtime) (project id : ℕ) (db db' : Db) (e : _)
    → IsAppended rt project id db e db'
    → IsSequenced db
    → IsSequenced db'
appended-IsSequenced rt project id db db' e h v =
    same_sequence db db'
      (λ p i. rw (appended_conversations rt project id db db' e h) (
        last_message-update_first (conversation_key project id) bump_event db.conversations p i
          (λ c. refl) (λ c. refl) (λ c. refl)))
      (appended_messages rt project id db db' e h) v

pub IsSequenced-IsStable : IsStable IsSequenced
unfolding update_conversation update_message
IsSequenced-IsStable = record {
  unread = λ db db' h v. same_sequence db db' (λ p i. rw h.conversations refl) h.messages v;
  touched = λ project id f db t v.
      same_sequence db (update_conversation project id f db)
        (λ p i.
          last_message-update_first (conversation_key project id) f db.conversations p i t.project
            t.id t.messages)
        refl v;
  rewritten = λ project id f db w alive v p i.
      IsCounted-update_first (message_of p i) _ f db.messages 0 _
        (λ r. rw (w.project r, w.conversation r)) w.sequence (v p i);
  inserted =
      λ rt m c db found next first undeleted fresh v. insert-IsSequenced rt m c db found next v;
  appended = appended-IsSequenced;
}
