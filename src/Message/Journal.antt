-- ===== src/Message/Journal.antt =====
-- The messages as a journal, which forgets the times, the references to other messages and what is
-- left of a deleted body, and the steps that it may take.
pub mod Keeping
pub mod Upkeep
use al_ur_messenger.Prelude.{
  ℕ, suc, ◌≡◌, refl, sym, ◌∙◌, ap, subst, inl, inr, ◌⊎◌, Bool, true, false, ◌&&◌, Option, none,
  some, List, [], ◌∷◌, ◌++◌, ltb, ◌==◌, length, is_some, arith, Bool-cases, map, if◌then◌else◌,
}
use al_ur_messenger.Prelude.Table.{
  find, exists, select, update_first, find-append_old, find-update_first, find-update_first_other,
  find_sound,
}
use al_ur_messenger.Store.{Db, MessageRow, MessageType, Sealed}

-- A message; one that has been deleted has no content.
pub record Entry : Type 0 where
  pub project_id : ℕ
  pub id : ℕ
  pub conversation_id : ℕ
  pub sequence : ℕ
  pub sender_id : ℕ
  pub type : MessageType
  pub version : ℕ
  pub content : Option Sealed

abbrev pub content_of_row : Option ℕ → Sealed → Option Sealed
content_of_row none s = some s
content_of_row (some t) s = none

abbrev pub entry : MessageRow → Entry
entry m = record {
  project_id = m.project_id;
  id = m.id;
  conversation_id = m.conversation_id;
  sequence = m.sequence;
  sender_id = m.sender_id;
  type = m.type;
  version = m.version;
  content = content_of_row m.deleted_at m.sealed;
}

unfoldable pub journal : Db → List Entry
journal db = map entry db.messages

abbrev pub entry_key : ℕ → ℕ → Entry → Bool
entry_key project id e = e.project_id == project && e.id == id

abbrev pub entry_of : ℕ → ℕ → Entry → Bool
entry_of project conversation e = e.project_id == project && e.conversation_id == conversation

abbrev pub changed : Option Sealed → Entry → Entry
changed c e = record e { content = c; version = suc e.version }

-- A new message has a new identifier, the next number of its conversation and version 1. A change
-- meets a message that has not been deleted and gives it the next version.
pub data Step (es : List Entry) : List Entry → Type 0 where
  posts :
      (e : Entry)
      → exists (λ x. x.id == e.id) es ≡ false
      → e.sequence ≡ suc (length (select (entry_of e.project_id e.conversation_id) es))
      → e.version ≡ 1
      → is_some e.content ≡ true
      → Step es (es ++ e ∷ [])
  changes :
      (project id : ℕ) (e : Entry) (c : Option Sealed)
      → find (entry_key project id) es ≡ some e
      → is_some e.content ≡ true
      → Step es (update_first (entry_key project id) (changed c) es)

pub data Steps (es : List Entry) : List Entry → Type 0 where
  no_step : Steps es es
  one_more : (fs gs : List Entry) → Steps es fs → Step fs gs → Steps es gs

-- The same message with a higher version.
pub record IsLater (e f : Entry) : Type 0 where
  pub was_live : is_some e.content ≡ true
  pub newer : ltb e.version f.version ≡ true
  pub id : f.id ≡ e.id
  pub conversation : f.conversation_id ≡ e.conversation_id
  pub sequence : f.sequence ≡ e.sequence
  pub sender : f.sender_id ≡ e.sender_id
  pub type : f.type ≡ e.type

abbrev pub Lasts : Entry → Entry → Type 0
Lasts e f = (f ≡ e) ⊎ IsLater e f

IsLater-trans : (e f g : Entry) → IsLater e f → IsLater f g → IsLater e g
IsLater-trans e f g h k = record {
  was_live = h.was_live;
  newer = ground (arith, h.newer, k.newer);
  id = k.id ∙ h.id;
  conversation = k.conversation ∙ h.conversation;
  sequence = k.sequence ∙ h.sequence;
  sender = k.sender ∙ h.sender;
  type = k.type ∙ h.type;
}

Lasts-trans : (e f g : Entry) → Lasts e f → Lasts f g → Lasts e g
Lasts-trans e f g (inl a) (inl b) = inl (b ∙ a)
Lasts-trans e f g (inl a) (inr k) = inr (subst (λ x. IsLater x g) a k)
Lasts-trans e f g (inr h) (inl b) = inr (subst (IsLater e) (sym b) h)
Lasts-trans e f g (inr h) (inr k) = inr (IsLater-trans e f g h k)

changed-IsLater :
    (e : Entry) (c : Option Sealed) → is_some e.content ≡ true → IsLater e (changed c e)
changed-IsLater e c live = record {
  was_live = live;
  newer = ground arith;
  id = refl;
  conversation = refl;
  sequence = refl;
  sender = refl;
  type = refl;
}

same_entry : (x y : Entry) → some x ≡ some y → x ≡ y
same_entry x y e = cc

Step-Lasts :
    (project id : ℕ) (es fs : List Entry) (e : Entry)
    → Step es fs
    → find (entry_key project id) es ≡ some e
    → (f : Entry) × (find (entry_key project id) fs ≡ some f) × Lasts e f
Step-Lasts project id es _ e (posts x fresh next first live) found =
    (e, find-append_old (entry_key project id) es _ e found, inl refl)
Step-Lasts project id es _ e (changes p i x c hit live) found =
    elim (Bool-cases (project == p && id == i)) [
      | inl same ↦
          let (one, two) = pairs same in
          let key : find (entry_key p i) es ≡ some e =
            subst (λ t. find (entry_key t i) es ≡ some e) one
              (subst (λ t. find (entry_key project t) es ≡ some e) two found) in
          let it : x ≡ e = same_entry x e (sym hit ∙ key) in
          (
            changed c e,
            subst
                (λ t.
                  find (entry_key t id) (update_first (entry_key p i) (changed c) es)
                  ≡ some (changed c e))
                (sym one)
                (subst
                  (λ t.
                    find (entry_key p t) (update_first (entry_key p i) (changed c) es)
                    ≡ some (changed c e))
                  (sym two)
                  (find-update_first (entry_key p i) (changed c) es e key
                    (find_sound (entry_key p i) es e key))),
            inr (changed-IsLater e c (subst (λ t. is_some t.content ≡ true) it live)),
          )
      | inr other ↦ (
        e,
        find-update_first_other (entry_key project id) (entry_key p i) (changed c) es
              (λ y k. ground arith) (λ y k. ground arith)
            ∙ found,
        inl refl,
      )
    ]
  where
    pairs : (project == p && id == i) ≡ true → (project ≡ p) × (id ≡ i)
    pairs h = (ground arith, ground arith)

-- A message of a journal stays in it for ever, and what has been deleted stays as it is.
pub Steps-Lasts :
    (project id : ℕ) (es fs : List Entry) (e : Entry)
    → Steps es fs
    → find (entry_key project id) es ≡ some e
    → (f : Entry) × (find (entry_key project id) fs ≡ some f) × Lasts e f
Steps-Lasts project id es _ e no_step found = (e, found, inl refl)
Steps-Lasts project id es _ e (one_more fs gs ss s) found =
    let (f, there, h) = Steps-Lasts project id es fs e ss found in
    let (g, now, k) = Step-Lasts project id fs gs f s there in (g, now, Lasts-trans e f g h k)

pub Steps-trans : (es fs gs : List Entry) → Steps es fs → Steps fs gs → Steps es gs
Steps-trans es fs _ h no_step = h
Steps-trans es fs _ h (one_more gs hs ss s) = one_more gs hs (Steps-trans es fs gs h ss) s
