-- ===== src/Message/Stable/Mutations.antt =====
-- Edits and deletions keep what their statements keep.
use al_ur_messenger.Prelude.{ℕ, ◌≡◌, refl, Bool, true, false, Option, some, is_some}
use al_ur_messenger.Runtime.{Runtime}
use al_ur_messenger.Identity.{Actor}
use al_ur_messenger.Store.{Db, MessageRow, Flag}
use al_ur_messenger.Result.{ok}
use al_ur_messenger.Store.Query.{Gives->>=, Gives-ok}
use al_ur_messenger.Message.Scan.{scan_id, message_row}
use al_ur_messenger.Message.Scan.Facts.{IsFound, IsShown, scan_id-IsFound}
use al_ur_messenger.Message.Mutations.Facts.{mutation_access-CanMutate}
use al_ur_messenger.Store.Tx.{Post, query->>=, check->>=, write->>=, bind->>=, commit-Post}
use al_ur_messenger.Event.Log.{append-IsAppended}
use al_ur_messenger.Message.{Edit, Message, Outside}
use al_ur_messenger.Message.Mutations.{
  edit, delete_message, delete_row, delete_unless, set_last, drop_relations, check_editable,
  request_edit, request_delete,
}
use al_ur_messenger.Message.Stable.{
  IsStable, IsAlive, found-IsAlive, relast-IsTouch, edited-IsRewrite, wiped-IsRewrite,
  insert_search-keeps, drop_search-keeps, drop_relations-keeps,
}

-- What may be edited has not been deleted.
editable-IsAlive :
    (rt : Runtime) (o : Outside) (project id : ℕ) (p : Edit) (m : Message) (db : Db)
    → scan_id rt o project id db ≡ ok m
    → check_editable p m ≡ ok tt
    → IsAlive project id db.messages
unfolding check_editable
editable-IsAlive rt o project id p m db seen editable =
    let h : IsFound rt o project id db m =
      Gives-ok (IsFound rt o project id db) _ m (scan_id-IsFound rt o project id db) seen in
    record { row = h.row; found = h.found; live = go h.row m h.shown editable }
  where
    go :
        (r : MessageRow) (m : Message)
        → IsShown rt o project r db m
        → check_editable p m ≡ ok tt
        → is_some r.deleted_at ≡ false
    go r m (IsShown.deleted d) e = cc
    go r m (IsShown.expired d x) e = d
    go r m (IsShown.active plain b d x opened decodes w) e = d

module _ (P : Db → Type 0) (stable : IsStable P) (rt : Runtime) (o : Outside) (a : Actor) where
  pub edit-keeps :
      (id : ℕ) (scope : Option ℕ) (p : Edit) (db : Db)
      → P db
      → Post (λ _ db'. P db') (edit rt o a id scope p db)
  unfolding edit
  edit-keeps id scope p db h = check->>= _ _ _ db λ valid.
      Gives->>= _ _ _ db (mutation_access-CanMutate a id scope Flag.allow_edit db) λ r can.
        query->>= _ _ _ db λ m seen. check->>= _ _ _ db λ editable.
          query->>= _ _ _ db λ _ moderated. query->>= _ _ _ db λ index _.
            query->>= _ _ _ db λ sealed _. write->>= _ _ _ db (
              write->>= _ _ _ _ (
                write->>= _ _ _ _ (
                  query->>= _ _ _ _ λ shown _.
                    bind->>= _ _ _ _ (append-IsAppended rt a.project_id r.conversation_id _ _ _)
                      λ e db' log. commit-Post _ _ db' (
                        stable.appended rt _ _ _ db' e log (
                          insert_search-keeps P stable rt o a _ _ (
                            drop_search-keeps P stable rt o a _ _ _ (
                              stable.rewritten a.project_id id _ db (edited-IsRewrite rt sealed)
                                (editable-IsAlive rt o a.project_id id p m db seen editable)
                                h)))))))

  delete_row-keeps :
      (r : MessageRow) (db : Db)
      → IsAlive a.project_id r.id db.messages
      → P db
      → Post (λ _ db'. P db') (delete_row rt o a r db)
  unfolding delete_row set_last drop_relations
  delete_row-keeps r db alive h = write->>= _ _ _ db (
      write->>= _ _ _ _ (
        write->>= _ _ _ _ (
          query->>= _ _ _ _ λ shown _.
            bind->>= _ _ _ _ (append-IsAppended rt a.project_id r.conversation_id _ _ _)
              λ e db' log. commit-Post _ _ db' (
                stable.appended rt _ _ _ db' e log (
                  stable.touched a.project_id r.conversation_id _ _ (relast-IsTouch rt _) (
                    stable.rewritten a.project_id r.id _ _ (wiped-IsRewrite rt) alive
                      (drop_relations-keeps P stable rt o a r db h)))))))

  pub delete_message-keeps :
      (id : ℕ) (scope : Option ℕ) (db : Db)
      → P db
      → Post (λ _ db'. P db') (delete_message rt o a id scope db)
  unfolding delete_message delete_unless
  delete_message-keeps id scope db h =
      Gives->>= _ _ _ db (mutation_access-CanMutate a id scope Flag.allow_delete db)
        λ r can. go r can.found _ refl
    where
      go :
          (r : MessageRow)
          → message_row a.project_id id db ≡ some r
          → (b : Bool) → is_some r.deleted_at ≡ b
          → Post (λ _ db'. P db') (delete_unless rt o a r b db)
      go r found false live =
          delete_row-keeps r db (found-IsAlive a.project_id id r db.messages found live) h
      go r found true gone = query->>= _ _ _ db λ shown _. commit-Post _ _ db h

  pub request_edit-keeps :
      (id : ℕ) (scope : Option ℕ) (p : Edit) (db : Db)
      → P db
      → Post (λ _ db'. P db') (request_edit rt o a id scope p db)
  unfolding request_edit
  request_edit-keeps id scope p db h =
      check->>= _ _ _ db λ v. check->>= _ _ _ db λ w. edit-keeps id scope p db h

  pub request_delete-keeps :
      (id : ℕ) (scope : Option ℕ) (db : Db)
      → P db
      → Post (λ _ db'. P db') (request_delete rt o a id scope db)
  unfolding request_delete
  request_delete-keeps id scope db h = check->>= _ _ _ db λ v. delete_message-keeps id scope db h
