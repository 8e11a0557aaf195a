-- ===== src/Message/Deletions.antt =====
-- What is left of a deleted message, and deleting it again.
use al_ur_messenger.Prelude.{
  ℕ, ◌≡◌, refl, sym, ◌∙◌, ap, subst, Bool, true, false, ◌&&◌, Option, some, none, List, [], is_some,
  ◌==◌, arith,
}
use al_ur_messenger.Prelude.Table.{find, find_sound, find-update_first}
use al_ur_messenger.Result.{Result, ok}
use al_ur_messenger.Runtime.{Runtime}
use al_ur_messenger.Identity.{Actor}
use al_ur_messenger.Store.{Db, MessageRow, Flag, message_key}
use al_ur_messenger.Store.Tx.{Post-ok, commit, query_runs}
use al_ur_messenger.Store.Query.{Gives, Gives-ok, row-Gives, step-Gives}
use al_ur_messenger.Message.{Message, Outside, is_deleted}
use al_ur_messenger.Message.Scan.{message_row, scan_id, tombstone}
use al_ur_messenger.Message.Scan.Facts.{scan-deleted, scan_id-row, message_key-id}
use al_ur_messenger.Message.Mutations.{delete_message, delete_unless, wiped}
use al_ur_messenger.Message.Access.{mutation_access}
use al_ur_messenger.Message.Mutations.Facts.{
  IsDeleted, was_deleted, now_deleted, delete-IsDeleted, CanMutate, mutation_access-CanMutate,
}
use al_ur_messenger.Message.Reading.{get_message}

-- The row that is there after a deletion.
pub record IsGone (a : Actor) (id : ℕ) (shown : Message) (db' : Db) : Type 0 where
  pub row : MessageRow
  pub found : message_row a.project_id id db' ≡ some row
  pub gone : is_some row.deleted_at ≡ true
  pub same : shown ≡ tombstone is_deleted row

result_unique : (x : Result Message) (m n : Message) → x ≡ ok m → x ≡ ok n → m ≡ n
result_unique x m n h k = cc

-- A deleted row is shown as a tombstone, without a key.
gone-scan :
    (rt : Runtime) (o : Outside) (project id : ℕ) (r : MessageRow) (db : Db)
    → message_row project id db ≡ some r
    → is_some r.deleted_at ≡ true
    → scan_id rt o project id db ≡ ok (tombstone is_deleted r)
gone-scan rt o project id r db found gone =
    scan_id-row rt o project id r db found ∙ scan-deleted rt o project r db gone

wiped_row :
    (rt : Runtime) (project id : ℕ) (db db' : Db) (r : MessageRow)
    → message_row project id db ≡ some r
    → db'.messages
      ≡ al_ur_messenger.Prelude.Table.update_first (message_key project id) (wiped rt) db.messages
    → message_row project id db' ≡ some (wiped rt r)
wiped_row rt project id db db' r found messages =
    ap (find (message_key project id)) messages
    ∙ find-update_first (message_key project id) (wiped rt) db.messages r found
        (find_sound (message_key project id) db.messages r found)

deleted-IsGone :
    (rt : Runtime) (o : Outside) (a : Actor) (id : ℕ) (db : Db) (shown : Message) (db' : Db)
    → IsDeleted rt o a id db shown db'
    → IsGone a id shown db'
deleted-IsGone rt o a id db shown db' (was_deleted r found gone visible same) = record {
  row = r;
  found = ap (message_row a.project_id id) same ∙ found;
  gone = gone;
  same = result_unique _ shown _ visible (gone-scan rt o a.project_id id r db found gone);
}
deleted-IsGone rt o a id db shown db' (now_deleted r found live messages before visible equal) =
    let row : message_row a.project_id id db' ≡ some (wiped rt r) =
      wiped_row rt a.project_id id db db' r found messages in
    record {
      row = wiped rt r;
      found = row;
      gone = refl;
      same = result_unique _ shown _ visible (
          gone-scan rt o a.project_id id (wiped rt r) before
            (ap (find (message_key a.project_id id)) equal ∙ row) refl);
    }

pub delete-IsGone :
    (rt : Runtime) (o : Outside) (a : Actor) (id : ℕ) (scope : Option ℕ) (db db' : Db)
    (shown : Message)
    → delete_message rt o a id scope db ≡ ok (shown, db')
    → IsGone a id shown db'
delete-IsGone rt o a id scope db db' shown h =
    deleted-IsGone rt o a id db shown db'
      (Post-ok _ _ shown db' (delete-IsDeleted rt o a id scope db) h).0

-- A message without its body and its relations.
pub record IsBlank (m : Message) : Type 0 where
  pub status : m.status ≡ is_deleted
  pub content : m.content ≡ none
  pub metadata : m.metadata ≡ none
  pub reply : m.reply ≡ none
  pub forward : m.forward ≡ none
  pub reactions : m.reactions ≡ []
  pub pin : m.pin ≡ none
  pub attachments : m.attachments ≡ []

tombstone-IsBlank : (r : MessageRow) → IsBlank (tombstone is_deleted r)
tombstone-IsBlank r = record {
  status = refl;
  content = refl;
  metadata = refl;
  reply = refl;
  forward = refl;
  reactions = refl;
  pin = refl;
  attachments = refl;
}

-- Whatever an actor gets of a deleted row is blank.
pub gone-IsBlank :
    (rt : Runtime) (o : Outside) (reader : Actor) (id : ℕ) (r : MessageRow) (db : Db)
    → message_row reader.project_id id db ≡ some r
    → is_some r.deleted_at ≡ true
    → Gives IsBlank (get_message rt o reader id db)
unfolding get_message
gone-IsBlank rt o reader id r db found gone = row-Gives _ _ _ _ db λ m _.
    step-Gives _ _ _ db λ _ allowed.
      subst (Gives IsBlank) (sym (gone-scan rt o reader.project_id id r db found gone))
        (Gives.given (tombstone-IsBlank r))

-- Once a deletion has committed, deleting the message again on the tables that it left, by any actor
-- of the Project whom Store.Delete admits there as one who may delete the message, through any
-- scope, with any keys and at any time, succeeds, changes no table and shows what the first deletion
-- showed.
pub delete-delete :
    (rt rt' : Runtime) (o o' : Outside) (a a' : Actor) (id : ℕ) (scope scope' : Option ℕ)
    (db db' : Db) (shown : Message) (r : MessageRow)
    → delete_message rt o a id scope db ≡ ok (shown, db')
    → a'.project_id ≡ a.project_id
    → mutation_access a' id scope' Flag.allow_delete db' ≡ ok r
    → delete_message rt' o' a' id scope' db' ≡ ok (shown, db')
unfolding delete_message delete_unless commit
delete-delete rt rt' o o' a a' id scope scope' db db' shown r h project admitted =
    let g : IsGone a id shown db' = delete-IsGone rt o a id scope db db' shown h in
    let can : CanMutate a' id scope' Flag.allow_delete db' r =
      Gives-ok (CanMutate a' id scope' Flag.allow_delete db') _ r
        (mutation_access-CanMutate a' id scope' Flag.allow_delete db') admitted in
    let there : message_row a'.project_id id db' ≡ some g.row =
      ap (λ q. message_row q id db') project ∙ g.found in
    let one : g.row ≡ r = row_unique _ _ (sym there ∙ can.found) in
    let gone : is_some r.deleted_at ≡ true = subst (λ x. is_some x.deleted_at ≡ true) one g.gone in
    let same_id : r.id ≡ id =
      message_key-id a'.project_id id r
        (find_sound (message_key a'.project_id id) db'.messages r can.found) in
    let seen : scan_id rt' o' a'.project_id r.id db' ≡ ok shown =
      ap (λ i. scan_id rt' o' a'.project_id i db') same_id
      ∙ (gone-scan rt' o' a'.project_id id r db' can.found gone
          ∙ ap ok (sym (g.same ∙ ap (tombstone is_deleted) one))) in
    query_runs _ _ r db' admitted
    ∙ (ap (λ b. delete_unless rt' o' a' r b db') gone ∙ query_runs _ commit shown db' seen)
  where
    row_unique : (x y : MessageRow) → some x ≡ some y → x ≡ y
    row_unique x y e = cc
