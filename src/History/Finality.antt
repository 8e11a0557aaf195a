-- ===== src/History/Finality.antt =====
-- What an edit and a deletion settle for every later history.
use al_ur_messenger.Prelude.{
  ℕ, suc, ◌≡◌, refl, sym, ◌∙◌, ap, inl, inr, true, false, Option, some, none, List, ltb, is_some,
  arith,
}
use al_ur_messenger.Result.{ok}
use al_ur_messenger.Runtime.{Runtime}
use al_ur_messenger.Identity.{Actor}
use al_ur_messenger.Store.{Db, MessageRow, Sealed}
use al_ur_messenger.Store.Tx.{Post, Post-mono, Post-ok}
use al_ur_messenger.Store.Query.{Gives}
use al_ur_messenger.Message.{Edit, Message, Outside}
use al_ur_messenger.Message.Scan.{message_row}
use al_ur_messenger.Message.Mutations.{edit, delete_message}
use al_ur_messenger.Message.Edits.{IsNext, edit-IsNext}
use al_ur_messenger.Message.Deletions.{IsGone, delete-IsGone, IsBlank, gone-IsBlank}
use al_ur_messenger.Message.Reading.{get_message}
use al_ur_messenger.Message.Sequence.{IsSequenced}
use al_ur_messenger.Message.Journal.{Lasts, entry, content_of_row}
use al_ur_messenger.History.{Call, run, run-Lasts}

-- Versions do not fall.
Lasts-version : (r s : MessageRow) → Lasts (entry r) (entry s) → ltb s.version r.version ≡ false
Lasts-version r s (inl same) =
    let e : s.version ≡ r.version = ap (λ x. x.version) same in ground arith
Lasts-version r s (inr later) = let e = later.newer in ground arith

deleted_content : (d : Option ℕ) (x : Sealed) → is_some d ≡ true → content_of_row d x ≡ none
deleted_content none x h = cc
deleted_content (some t) x h = refl

content_deleted : (d : Option ℕ) (x : Sealed) → content_of_row d x ≡ none → is_some d ≡ true
content_deleted none x h = cc
content_deleted (some t) x h = refl

-- What has been deleted stays so.
Lasts-deleted :
    (r s : MessageRow)
    → is_some r.deleted_at ≡ true
    → Lasts (entry r) (entry s)
    → is_some s.deleted_at ≡ true
Lasts-deleted r s gone (inl same) =
    content_deleted s.deleted_at s.sealed
      (ap (λ x. x.content) same ∙ deleted_content r.deleted_at r.sealed gone)
Lasts-deleted r s gone (inr later) =
    absurd (clash _ later.was_live (deleted_content r.deleted_at r.sealed gone))
  where
    clash : (x : Option Sealed) → is_some x ≡ true → x ≡ none → ⊥
    clash none h e = cc
    clash (some y) h e = cc

-- Once an edit has committed, no edit that expects the same version of the message ever commits,
-- whoever of the Project sends it and whatever it says, after any calls of the conversation,
-- membership, receipt and message commands in between. The messages of every conversation have to be
-- numbered without a gap after the first edit.
pub edit-run :
    (rt rt' : Runtime) (o o' : Outside) (a a' : Actor) (id : ℕ) (scope scope' : Option ℕ)
    (p p' : Edit) (db db' : Db) (shown : Message) (cs : List Call)
    → edit rt o a id scope p db ≡ ok (shown, db')
    → IsSequenced db'
    → a'.project_id ≡ a.project_id
    → p'.expected_version ≡ p.expected_version
    → Post (λ _ _. ⊥) (edit rt' o' a' id scope' p' (run cs db'))
edit-run rt rt' o o' a a' id scope scope' p p' db db' shown cs h v project version =
    let first : IsNext a id p db db' = Post-ok _ _ shown db' (edit-IsNext rt o a id scope p db) h in
    let (s, found, lasts) = run-Lasts cs a.project_id id db' first.new v first.now in
    Post-mono _ _ _ (edit-IsNext rt' o' a' id scope' p' (run cs db')) λ again db'' second.
      let one : second.old.version ≡ s.version =
        version_of _ _
          (sym second.was ∙ (ap (λ q. message_row q id (run cs db')) project ∙ found)) in
      too_new s.version first.new.version p.expected_version (Lasts-version first.new s lasts)
        first.left (sym one ∙ (second.met ∙ version))
  where
    version_of : (x y : MessageRow) → some x ≡ some y → x.version ≡ y.version
    version_of x y e = cc

    too_new : (x y u : ℕ) → ltb x y ≡ false → y ≡ suc u → x ≡ u → ⊥
    too_new x y u a b c = ground arith

-- After a deletion has committed and any calls of the conversation, membership, receipt and message
-- commands since, whatever an actor of the Project gets under the identifier of the message, with
-- any keys and at any time, is marked as deleted and has no content, metadata, reply, forward
-- header, reactions, pin or attachments. The messages of every conversation have to be numbered
-- without a gap after the deletion.
pub run-IsBlank :
    (rt rt' : Runtime) (o o' : Outside) (a reader : Actor) (id : ℕ) (scope : Option ℕ) (db db' : Db)
    (shown : Message) (cs : List Call)
    → delete_message rt o a id scope db ≡ ok (shown, db')
    → IsSequenced db'
    → reader.project_id ≡ a.project_id
    → Gives IsBlank (get_message rt' o' reader id (run cs db'))
run-IsBlank rt rt' o o' a reader id scope db db' shown cs h v project =
    let g : IsGone a id shown db' = delete-IsGone rt o a id scope db db' shown h in
    let (s, found, lasts) = run-Lasts cs a.project_id id db' g.row v g.found in
    gone-IsBlank rt' o' reader id s (run cs db')
      (ap (λ q. message_row q id (run cs db')) project ∙ found) (Lasts-deleted g.row s g.gone lasts)
