-- ===== src/Message/Edits.antt =====
-- What an edit meets and leaves.
use al_ur_messenger.Prelude.{
  ℕ, suc, ◌≡◌, refl, sym, ◌∙◌, ap, subst, true, false, Option, some, is_some, ltb, arith,
}
use al_ur_messenger.Prelude.Table.{find, find_sound, find-update_first, update_first}
use al_ur_messenger.Result.{ok}
use al_ur_messenger.Runtime.{Runtime}
use al_ur_messenger.Identity.{Actor}
use al_ur_messenger.Store.{Db, MessageRow, Sealed, message_key}
use al_ur_messenger.Store.Tx.{Post, Post-mono, Post-ok}
use al_ur_messenger.Message.{Edit, Message, Outside, is_active}
use al_ur_messenger.Recovery.Access.{read_access}
use al_ur_messenger.Message.Scan.{message_row, scan_id, live_message, agrees}
use al_ur_messenger.Message.Scan.Facts.{
  found-IsOf, IsOf, IsShown, deleted, expired, active, IsFound, scan_id-IsFound, scan-live,
  scan_id-row, message_key-id,
}
use al_ur_messenger.Message.Contents.{IsFaithful, is_utf8, IsOpen, sealed-IsOpen, get-scan, lasts}
use al_ur_messenger.Message.Reading.{get_message}
use al_ur_messenger.Store.Query.{Gives-ok}
use al_ur_messenger.Message.Mutations.{
  edit, edited, check_editable, status_is_active, is_text, new_body,
}
use al_ur_messenger.Message.Mutations.Facts.{IsEdited, edit-IsEdited}

-- The tests of an edit that has gone through.
editable_lem :
    (p : Edit) (m : Message)
    → check_editable p m ≡ ok tt
    → (status_is_active m.status ≡ true)
      × (is_text m.type ≡ true)
      × (m.version ≡ p.expected_version)
unfolding check_editable
editable_lem p m h = (ground arith, ground arith, ground arith)

edited_row :
    (rt : Runtime) (project id : ℕ) (s : Sealed) (db db' : Db) (r : MessageRow)
    → message_row project id db ≡ some r
    → db'.messages ≡ update_first (message_key project id) (edited rt s) db.messages
    → message_row project id db' ≡ some (edited rt s r)
edited_row rt project id s db db' r found messages =
    ap (find (message_key project id)) messages
    ∙ find-update_first (message_key project id) (edited rt s) db.messages r found
        (find_sound (message_key project id) db.messages r found)

-- The version that the edit met, and the one that it leaves.
pub record IsNext (a : Actor) (id : ℕ) (p : Edit) (db db' : Db) : Type 0 where
  pub old : MessageRow
  pub new : MessageRow
  pub was : message_row a.project_id id db ≡ some old
  pub now : message_row a.project_id id db' ≡ some new
  pub met : old.version ≡ p.expected_version
  pub left : new.version ≡ suc p.expected_version
  pub author : old.sender_id ≡ a.user_id

edited-IsNext :
    (rt : Runtime) (o : Outside) (a : Actor) (id : ℕ) (scope : Option ℕ) (p : Edit) (db : Db)
    (shown : Message) (db' : Db)
    → IsEdited rt o a id scope p db shown db'
    → IsNext a id p db db'
edited-IsNext rt o a id scope p db shown db' h =
    let of_row : IsOf h.row h.before =
      found-IsOf rt o a.project_id id db h.before h.row h.seen h.can.found in
    let (live, text, version) = editable_lem p h.before h.editable in
    let met : h.row.version ≡ p.expected_version = sym of_row.version ∙ version in
    record {
      old = h.row;
      new = edited rt h.sealed h.row;
      was = h.can.found;
      now = edited_row rt a.project_id id h.sealed db db' h.row h.can.found h.messages;
      met = met;
      left = ap suc met;
      author = h.can.own;
    }

-- What every edit that commits has met and left.
pub edit-IsNext :
    (rt : Runtime) (o : Outside) (a : Actor) (id : ℕ) (scope : Option ℕ) (p : Edit) (db : Db)
    → Post (λ _ db'. IsNext a id p db db') (edit rt o a id scope p db)
edit-IsNext rt o a id scope p db =
    Post-mono _ _ _ (edit-IsEdited rt o a id scope p db)
      λ shown db' k. edited-IsNext rt o a id scope p db shown db' k.0

-- A message that is shown as active is not deleted, and its forward header agrees.
live_shown :
    (rt : Runtime) (o : Outside) (project : ℕ) (r : MessageRow) (db : Db) (m : Message)
    → IsShown rt o project r db m
    → status_is_active m.status ≡ true
    → (is_some m.deleted_at ≡ false) × (agrees r.forwarded_from m.forward ≡ true)
live_shown rt o project r db m (deleted d) h = cc
live_shown rt o project r db m (expired d e) h = cc
live_shown rt o project r db m (active plain b d e opened decodes w) h = (d, w)

live_lem :
    (rt : Runtime) (o : Outside) (project id : ℕ) (db : Db) (m : Message)
    → scan_id rt o project id db ≡ ok m
    → status_is_active m.status ≡ true
    → is_some m.deleted_at ≡ false
live_lem rt o project id db m e live =
    let h : IsFound rt o project id db m =
      Gives-ok (IsFound rt o project id db) _ m (scan_id-IsFound rt o project id db) e in
    (live_shown rt o project h.row db m h.shown live).0

agreed_lem :
    (rt : Runtime) (o : Outside) (project id : ℕ) (db : Db) (m : Message) (r : MessageRow)
    → scan_id rt o project id db ≡ ok m
    → message_row project id db ≡ some r
    → status_is_active m.status ≡ true
    → agrees r.forwarded_from m.forward ≡ true
agreed_lem rt o project id db m r e found live =
    let h : IsFound rt o project id db m =
      Gives-ok (IsFound rt o project id db) _ m (scan_id-IsFound rt o project id db) e in
    let one : h.row ≡ r = cc in
    ap (λ x. agrees x.forwarded_from m.forward) (sym one)
    ∙ (live_shown rt o project h.row db m h.shown live).1

-- What an edit leaves to the readers of the message.
pub record IsReplaced (a : Actor) (p : Edit) (r : MessageRow) (m : Message) : Type 0 where
  pub content : m.content ≡ some p.content
  pub version : m.version ≡ suc p.expected_version
  pub status : m.status ≡ is_active
  pub sender : (m.sender_id ≡ a.user_id) × (r.sender_id ≡ a.user_id)
  pub place : (m.conversation_id ≡ r.conversation_id) × (m.sequence ≡ r.sequence)
  pub reply : m.reply ≡ r.reply_to
  pub expiry : m.expires_at ≡ r.expires_at

-- A committed edit comes from the author and meets the version that it expects; and until the
-- message expires, every actor of the Project who may read the conversation gets the new content in
-- the old place, under the next version, with the sender, the reply reference and the expiry that
-- the message had, as long as the tables are those that the edit left. What was sealed has to open,
-- JSON of a body has to read back, and the body has to be valid UTF-8.
pub edit-IsReplaced :
    (rt rt' : Runtime) (o : Outside) (a reader : Actor) (id : ℕ) (scope : Option ℕ) (p : Edit)
    (db db' : Db) (shown : Message) (r : MessageRow)
    → IsFaithful o
    → message_row a.project_id id db ≡ some r
    → ((m : Message) → scan_id rt o a.project_id id db ≡ ok m → is_utf8 (new_body p m) ≡ true)
    → edit rt o a id scope p db ≡ ok (shown, db')
    → ltb rt'.db_now r.expires_at ≡ true
    → reader.project_id ≡ a.project_id
    → read_access reader r.conversation_id db' ≡ ok tt
    → (m : Message) × (get_message rt' o reader id db' ≡ ok m) × IsReplaced a p r m
edit-IsReplaced rt rt' o a reader id scope p db db' shown r f found utf8 h early project allowed =
    let k : IsEdited rt o a id scope p db shown db' =
      (Post-ok _ _ shown db' (edit-IsEdited rt o a id scope p db) h).0 in
    let one : k.row ≡ r = some_row _ _ (sym k.can.found ∙ found) in go k one
  where
    some_row : (x y : MessageRow) → some x ≡ some y → x ≡ y
    some_row x y e = cc

    go :
        (k : IsEdited rt o a id scope p db shown db')
        → k.row ≡ r
        → (m : Message) × (get_message rt' o reader id db' ≡ ok m) × IsReplaced a p r m
    go k one =
        let of_row : IsOf k.row k.before =
          found-IsOf rt o a.project_id id db k.before k.row k.seen k.can.found in
        let (live, text, version) = editable_lem p k.before k.editable in
        let met : r.version ≡ p.expected_version =
          sym (ap (λ x. x.version) one) ∙ (sym of_row.version ∙ version) in
        let same_id : r.id ≡ id =
          message_key-id a.project_id id r
            (find_sound (message_key a.project_id id) db.messages r found) in
        let there : message_row reader.project_id id db' ≡ some (edited rt k.sealed r) =
          ap (λ q. message_row q id db') project
          ∙ edited_row rt a.project_id id k.sealed db db' r found k.messages in
        let opens : IsOpen o a.project_id r.conversation_id id k.sealed (new_body p k.before) =
          subst (λ x. IsOpen o a.project_id x.conversation_id id k.sealed (new_body p k.before)) one
            (sealed-IsOpen o a k.row.conversation_id id (new_body p k.before) db k.sealed f
              (utf8 k.before k.seen) k.is_sealed) in
        let undeleted : is_some r.deleted_at ≡ false =
          ap (λ x. is_some x.deleted_at) (sym one)
          ∙ (ap is_some (sym of_row.deleted)
              ∙ live_lem rt o a.project_id id db k.before k.seen live) in
        let agreed : agrees r.forwarded_from k.before.forward ≡ true =
          ap (λ x. agrees x.forwarded_from k.before.forward) (sym one)
          ∙ agreed_lem rt o a.project_id id db k.before k.row k.seen k.can.found live in
        (
          live_message (edited rt k.sealed r) (new_body p k.before) db',
          get-scan rt' o reader id (edited rt k.sealed r) db' there allowed
              ∙ (scan_id-row rt' o reader.project_id id (edited rt k.sealed r) db' there
                  ∙ scan-live rt' o reader.project_id (edited rt k.sealed r) db' opens.plain
                      (new_body p k.before) undeleted (lasts _ _ early)
                      (ap (λ q. o.crypto.open_sealed q r.conversation_id r.id k.sealed) project
                        ∙ (ap (λ i. o.crypto.open_sealed a.project_id r.conversation_id i k.sealed)
                              same_id
                            ∙ opens.opened))
                      opens.decoded agreed),
          record {
            content = refl;
            version = ap suc met;
            status = refl;
            sender = (
              ap (λ x. x.sender_id) (sym one) ∙ k.can.own,
              ap (λ x. x.sender_id) (sym one) ∙ k.can.own,
            );
            place = (refl, refl);
            reply = refl;
            expiry = refl;
          },
        )
