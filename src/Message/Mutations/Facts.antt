-- ===== src/Message/Mutations/Facts.antt =====
-- Who may edit and delete, and what an edit and a deletion write.
use al_ur_messenger.Prelude.{
  ℕ, ◌≡◌, refl, sym, subst, Bool, true, false, ◌||◌, not, Option, some, ◌==◌, arith, is_some,
}
use al_ur_messenger.Prelude.Table.{find_sound, update_first}
use al_ur_messenger.Text.{valid_string}
use al_ur_messenger.Result.{ok, fail_if, forbidden}
use al_ur_messenger.Runtime.{Runtime}
use al_ur_messenger.Identity.{Actor}
use al_ur_messenger.Store.{Db, MessageRow, SettingsRow, Flag, Sealed, message_key}
use al_ur_messenger.Store.Tx.{
  Post, Post-mono, query->>=, check->>=, write->>=, bind->>=, commit-Post,
}
use al_ur_messenger.Store.Query.{
  Gives, Gives->>=, row-Gives, check-Gives, step-Gives, pure-Gives, check_end, bind-Gives,
}
use al_ur_messenger.Event.Log.{append-IsAppended, appended_messages}
use al_ur_messenger.Conversation.Access.{settings_row}
use al_ur_messenger.Conversation.Commands.{update_conversation}
use al_ur_messenger.Message.{Edit, Message, Outside, validate_edit}
use al_ur_messenger.Message.Scan.{scan_id, message_row}
use al_ur_messenger.Message.Scan.Facts.{message_key-id}
use al_ur_messenger.Message.Access.{
  mutation_access, require_feature, is_system_message, scope_fits, activity_access,
}
use al_ur_messenger.Message.Sending.{seal_with, insert_search}
use al_ur_messenger.Message.Mutations.{
  edit, edited, check_editable, new_body, update_message, drop_search, delete_message, delete_row,
  delete_unless, wiped, drop_relations, set_last,
}

-- The author of an ordinary message, who may write in its conversation, while the flag is on.
pub record CanMutate (a : Actor) (id : ℕ) (scope : Option ℕ) (flag : Flag) (db : Db)
    (r : MessageRow) : Type 0 where
  pub found : message_row a.project_id id db ≡ some r
  pub in_scope : scope_fits scope r.conversation_id ≡ true
  pub retention : ℕ
  pub active : activity_access a r.conversation_id false true db ≡ ok retention
  pub own : r.sender_id ≡ a.user_id
  pub ordinary : is_system_message r.type ≡ false
  pub settings : SettingsRow
  pub configured : settings_row a.project_id db ≡ some settings
  pub enabled : settings.flags flag ≡ true

require_feature-Gives :
    (project : ℕ) (flag : Flag) (db : Db)
    → Gives
        (λ _. (s : SettingsRow) × (settings_row project db ≡ some s) × (s.flags flag ≡ true))
        (require_feature project flag db)
unfolding require_feature
require_feature-Gives project flag db =
    row-Gives _ _ _ _ db λ s e. check_end _ _ db λ on. (s, e, ground arith)

pub mutation_access-CanMutate :
    (a : Actor) (id : ℕ) (scope : Option ℕ) (flag : Flag) (db : Db)
    → Gives (CanMutate a id scope flag db) (mutation_access a id scope flag db)
unfolding mutation_access
mutation_access-CanMutate a id scope flag db = row-Gives _ _ _ _ db λ r found.
    check-Gives _ _ _ db λ in_scope. step-Gives _ _ _ db λ retention active.
      check-Gives _ _ _ db λ mine.
        bind-Gives _ _ _ db (require_feature-Gives a.project_id flag db) λ _ on.
          let (own, ordinary) = owner _ _ _ mine in
          pure-Gives _ r db (record {
            found = found;
            in_scope = ground arith;
            retention = retention;
            active = active;
            own = own;
            ordinary = ordinary;
            settings = on.0;
            configured = on.1;
            enabled = on.2;
          })
  where
    owner :
        (x y : ℕ) (b : Bool) → fail_if (not (x == y) || b) forbidden ≡ ok tt → (x ≡ y) × (b ≡ false)
    owner x y b h = (ground arith, ground arith)

-- What an edit has met and written.
pub record IsEdited (rt : Runtime) (o : Outside) (a : Actor) (id : ℕ) (scope : Option ℕ) (p : Edit)
    (db : Db) (shown : Message) (db' : Db) : Type 0 where
  pub valid : valid_string p.content.text ≡ true
  pub row : MessageRow
  pub can : CanMutate a id scope Flag.allow_edit db row
  pub before : Message
  pub seen : scan_id rt o a.project_id id db ≡ ok before
  pub editable : check_editable p before ≡ ok tt
  pub sealed : Sealed
  pub is_sealed : seal_with o a row.conversation_id id (new_body p before) db ≡ ok sealed
  pub messages :
      db'.messages ≡ update_first (message_key a.project_id id) (edited rt sealed) db.messages

valid_edit : (p : Edit) → validate_edit p ≡ ok tt → valid_string p.content.text ≡ true
unfolding validate_edit
valid_edit p h = ground arith

pub edit-IsEdited :
    (rt : Runtime) (o : Outside) (a : Actor) (id : ℕ) (scope : Option ℕ) (p : Edit) (db : Db)
    → Post
        (λ shown db'.
          IsEdited rt o a id scope p db shown db'
          × ((before : Db) × (scan_id rt o a.project_id id before ≡ ok shown)
              × (before.messages ≡ db'.messages)))
        (edit rt o a id scope p db)
unfolding edit update_message drop_search insert_search
edit-IsEdited rt o a id scope p db = check->>= _ _ _ db λ valid.
    Gives->>= _ _ _ db (mutation_access-CanMutate a id scope Flag.allow_edit db) λ r can.
      query->>= _ _ _ db λ m seen. check->>= _ _ _ db λ editable. query->>= _ _ _ db λ _ moderated.
        query->>= _ _ _ db λ index _. query->>= _ _ _ db λ sealed is_sealed. write->>= _ _ _ db (
          write->>= _ _ _ _ (
            write->>= _ _ _ _ (
              query->>= _ _ _ _ λ shown visible.
                bind->>= _ _ _ _ (append-IsAppended rt a.project_id r.conversation_id _ _ _)
                  λ e db' log.
                    let same = appended_messages rt a.project_id r.conversation_id _ db' e log in
                    commit-Post _ _ db' (
                      record {
                        valid = valid_edit p valid;
                        row = r;
                        can = can;
                        before = m;
                        seen = seen;
                        editable = editable;
                        sealed = sealed;
                        is_sealed = is_sealed;
                        messages = same;
                      },
                      (_, visible, sym same),
                    ))))

-- What a deletion has met and written.
pub data IsDeleted (rt : Runtime) (o : Outside) (a : Actor) (id : ℕ) (db : Db) (shown : Message)
    (db' : Db) : Type 0 where
  was_deleted :
      (r : MessageRow)
      → message_row a.project_id id db ≡ some r
      → is_some r.deleted_at ≡ true
      → scan_id rt o a.project_id id db ≡ ok shown
      → db' ≡ db
      → IsDeleted rt o a id db shown db'
  now_deleted :
      (r : MessageRow)
      → message_row a.project_id id db ≡ some r
      → is_some r.deleted_at ≡ false
      → db'.messages ≡ update_first (message_key a.project_id id) (wiped rt) db.messages
      → (before : Db) → scan_id rt o a.project_id id before ≡ ok shown
      → before.messages ≡ db'.messages
      → IsDeleted rt o a id db shown db'

delete_row-IsDeleted :
    (rt : Runtime) (o : Outside) (a : Actor) (r : MessageRow) (db : Db)
    → message_row a.project_id r.id db ≡ some r
    → is_some r.deleted_at ≡ false
    → Post (IsDeleted rt o a r.id db) (delete_row rt o a r db)
unfolding delete_row update_message drop_relations set_last update_conversation
delete_row-IsDeleted rt o a r db found live = write->>= _ _ _ db (
    write->>= _ _ _ _ (
      write->>= _ _ _ _ (
        query->>= _ _ _ _ λ shown visible.
          bind->>= _ _ _ _ (append-IsAppended rt a.project_id r.conversation_id _ _ _) λ e db' log.
            let same = appended_messages rt a.project_id r.conversation_id _ db' e log in
            commit-Post _ _ db' (now_deleted r found live same _ visible (sym same)))))

pub delete-IsDeleted :
    (rt : Runtime) (o : Outside) (a : Actor) (id : ℕ) (scope : Option ℕ) (db : Db)
    → Post
        (λ shown db'.
          IsDeleted rt o a id db shown db'
          × ((r : MessageRow) × CanMutate a id scope Flag.allow_delete db r))
        (delete_message rt o a id scope db)
unfolding delete_message delete_unless
delete-IsDeleted rt o a id scope db =
    Gives->>= _ _ _ db (mutation_access-CanMutate a id scope Flag.allow_delete db) λ r can.
      let same_id : r.id ≡ id =
        message_key-id a.project_id id r
          (find_sound (message_key a.project_id id) db.messages r can.found) in
      Post-mono _ _ _
        (subst
          (λ i. Post (IsDeleted rt o a i db) (delete_unless rt o a r (is_some r.deleted_at) db))
          same_id
          (go r (subst (λ i. message_row a.project_id i db ≡ some r) (sym same_id) can.found) _
            refl))
        λ shown db' h. (h, (r, can))
  where
    go :
        (r : MessageRow)
        → message_row a.project_id r.id db ≡ some r
        → (b : Bool) → is_some r.deleted_at ≡ b
        → Post (IsDeleted rt o a r.id db) (delete_unless rt o a r b db)
    go r found false live = delete_row-IsDeleted rt o a r db found live
    go r found true gone =
        query->>= _ _ _ db
          λ shown visible. commit-Post _ _ db (was_deleted r found gone visible refl)
