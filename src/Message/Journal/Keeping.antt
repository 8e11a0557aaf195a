-- ===== src/Message/Journal/Keeping.antt =====
-- The commands of the messages follow the journal.
use al_ur_messenger.Prelude.{
  ℕ, suc, ◌+◌, ◌≡◌, refl, sym, ◌∙◌, ap, subst, true, false, Option, none, some, List, [], ◌∷◌, ◌==◌,
  length, is_some, arith, map,
}
use al_ur_messenger.Prelude.Table.{find, exists, exists-map, select}
use al_ur_messenger.Prelude.Views.{
  map-append, find-map, find-map_back, length-select-map, update_first-map,
}
use al_ur_messenger.Store.{Db, MessageRow, ConversationRow, Sealed, conversation_key}
use al_ur_messenger.Runtime.{Runtime}
use al_ur_messenger.Message.Scan.{message_row}
use al_ur_messenger.Event.Log.{appended_messages}
use al_ur_messenger.Conversation.Commands.{update_conversation}
use al_ur_messenger.Recovery.Receipts.Positions.{messages_of}
use al_ur_messenger.Message.Sending.{numbered, insert_message}
use al_ur_messenger.Message.Mutations.{update_message}
use al_ur_messenger.Message.Stable.{IsStable, IsRewrite, IsAlive}
use al_ur_messenger.Message.Sequence.{IsSequenced, IsSequenced-IsStable, IsCounted, thread}
use al_ur_messenger.Message.Journal.{
  Entry, posts, changes, Steps, one_more, entry, journal, entry_key, entry_of, changed,
  content_of_row,
}

-- The journal has come from the one of the first tables, and its numbers have no gap.
abbrev pub Follows : Db → Db → Type 0
Follows first db = IsSequenced db × Steps (journal first) (journal db)

pub same_journal : (db db' : Db) → db'.messages ≡ db.messages → journal db' ≡ journal db
unfolding journal
same_journal db db' e = ap (map entry) e

pub follows_same :
    (first db db' : Db)
    → db'.messages ≡ db.messages
    → Steps (journal first) (journal db)
    → Steps (journal first) (journal db')
follows_same first db db' e s = subst (Steps (journal first)) (sym (same_journal db db' e)) s

counted_length : (n m : ℕ) (rs : List MessageRow) → IsCounted n rs m → n + length rs ≡ m
counted_length n m [] h = omega (arith, h)
counted_length n m (r ∷ rs) h = omega (arith, counted_length (suc n) m rs h.1)

from_zero : (m : ℕ) (rs : List MessageRow) → IsCounted 0 rs m → length rs ≡ m
from_zero m rs h = omega (arith, counted_length 0 m rs h)

rewritten_entry :
    (f : MessageRow → MessageRow) (r : MessageRow)
    → IsRewrite f
    → entry (f r) ≡ changed (content_of_row (f r).deleted_at (f r).sealed) (entry r)
rewritten_entry f r w =
    rw (w.project r, w.id r, w.conversation r, w.sequence r, w.sender r, w.type r, w.version r) refl

undeleted_content :
    (d : Option ℕ) (s : Sealed) → is_some d ≡ false → is_some (content_of_row d s) ≡ true
undeleted_content none s h = refl
undeleted_content (some t) s h = cc

rewritten-Steps :
    (first : Db) (project id : ℕ) (f : MessageRow → MessageRow) (db : Db)
    → IsRewrite f
    → IsAlive project id db.messages
    → Steps (journal first) (journal db)
    → Steps (journal first) (journal (update_message project id f db))
unfolding journal update_message
rewritten-Steps first project id f db w alive s =
    let r = alive.row in
    let c = content_of_row (f r).deleted_at (f r).sealed in
    subst (Steps (map entry first.messages))
      (sym (
        update_first-map entry (entry_key project id) f (changed c) db.messages r alive.found
          (rewritten_entry f r w)))
      (one_more _ _ s (
        changes project id (entry r) c
          (find-map entry (entry_key project id) db.messages r alive.found)
          (undeleted_content r.deleted_at r.sealed alive.live)))

next_number :
    (rt : Runtime) (m : MessageRow) (c : ConversationRow) (db : Db)
    → find (conversation_key m.project_id m.conversation_id) db.conversations ≡ some c
    → IsSequenced db
    → length (select (entry_of m.project_id m.conversation_id) (map entry db.messages))
      ≡ c.message_sequence
next_number rt m c db found v =
    length-select-map entry (entry_of m.project_id m.conversation_id) db.messages
    ∙ (from_zero _ (thread m.project_id m.conversation_id db) (v m.project_id m.conversation_id)
        ∙ ap messages_of found)

inserted-Steps :
    (first : Db) (rt : Runtime) (m : MessageRow) (c : ConversationRow) (db : Db)
    → find (conversation_key m.project_id m.conversation_id) db.conversations ≡ some c
    → m.sequence ≡ suc c.message_sequence
    → m.version ≡ 1
    → m.deleted_at ≡ none
    → exists (λ x. x.id == m.id) db.messages ≡ false
    → Follows first db
    → Steps (journal first) (
        journal
          (insert_message m (update_conversation m.project_id m.conversation_id (numbered rt) db)))
unfolding journal insert_message update_conversation
inserted-Steps first rt m c db found next one undeleted fresh v =
    subst (Steps (map entry first.messages)) (sym (map-append entry db.messages (m ∷ []))) (
      one_more _ _ v.1 (
        posts (entry m) (exists-map (λ x. x.id == m.id) entry db.messages ∙ fresh)
          (next ∙ ap suc (sym (next_number rt m c db found v.0))) one
          (undeleted_content m.deleted_at m.sealed (ap is_some undeleted))))

pub Follows-IsStable : (first : Db) → IsStable (Follows first)
unfolding update_conversation
Follows-IsStable first = record {
  unread = λ db db' h v.
      (IsSequenced-IsStable.unread db db' h v.0, follows_same first db db' h.messages v.1);
  touched = λ project id f db t v. (
    IsSequenced-IsStable.touched project id f db t v.0,
    follows_same first db _ (touched_messages project id f db) v.1,
  );
  rewritten = λ project id f db w alive v. (
    IsSequenced-IsStable.rewritten project id f db w alive v.0,
    rewritten-Steps first project id f db w alive v.1,
  );
  inserted = λ rt m c db found next one undeleted fresh v. (
    IsSequenced-IsStable.inserted rt m c db found next one undeleted fresh v.0,
    inserted-Steps first rt m c db found next one undeleted fresh v,
  );
  appended = λ rt project id db db' e h v. (
    IsSequenced-IsStable.appended rt project id db db' e h v.0,
    follows_same first db db' (appended_messages rt project id db db' e h) v.1,
  );
}
  where
    touched_messages :
        (project id : ℕ) (f : ConversationRow → ConversationRow) (db : Db)
        → (update_conversation project id f db).messages ≡ db.messages
    touched_messages project id f db = refl

pub journal-find :
    (project id : ℕ) (db : Db) (r : MessageRow)
    → message_row project id db ≡ some r
    → find (entry_key project id) (journal db) ≡ some (entry r)
unfolding journal
journal-find project id db r h = find-map entry (entry_key project id) db.messages r h

pub journal-find_back :
    (project id : ℕ) (db : Db) (e : Entry)
    → find (entry_key project id) (journal db) ≡ some e
    → (r : MessageRow) × (message_row project id db ≡ some r) × (entry r ≡ e)
unfolding journal
journal-find_back project id db e h = find-map_back entry (entry_key project id) db.messages e h
