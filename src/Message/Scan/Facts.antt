-- ===== src/Message/Scan/Facts.antt =====
-- What a scan shows of a row.
use al_ur_messenger.Prelude.{
  ℕ, ◌≡◌, refl, Bool, true, false, Option, some, none, leb, is_some, arith, if◌then◌else◌, ◌∙◌,
  subst,
}
use al_ur_messenger.Prelude.Table.{find_sound}
use al_ur_messenger.Text.{Text}
use al_ur_messenger.Result.{Result, ok, err, crypto, not_found}
use al_ur_messenger.Runtime.{Runtime}
use al_ur_messenger.Store.{Db, MessageRow, message_key}
use al_ur_messenger.Store.Query.{Gives, given, refused, Gives-ok, row-Gives, row_hit}
use al_ur_messenger.Message.{Message, is_deleted, is_expired, Body, Outside}
use al_ur_messenger.Message.Scan.{
  scan, scan_id, message_row, tombstone, live_message, decoded, show_body, agrees,
}

-- The message has the identity, the place and the version of the row.
pub record IsOf (r : MessageRow) (m : Message) : Type 0 where
  pub id : m.id ≡ r.id
  pub conversation : m.conversation_id ≡ r.conversation_id
  pub sender : m.sender_id ≡ r.sender_id
  pub type : m.type ≡ r.type
  pub sequence : m.sequence ≡ r.sequence
  pub version : m.version ≡ r.version
  pub expires : m.expires_at ≡ r.expires_at
  pub deleted : m.deleted_at ≡ r.deleted_at

-- The three ways in which a row is shown.
pub data IsShown (rt : Runtime) (o : Outside) (project : ℕ) (r : MessageRow) (db : Db)
    : Message → Type 0 where
  deleted : is_some r.deleted_at ≡ true → IsShown rt o project r db (tombstone is_deleted r)
  expired :
      is_some r.deleted_at ≡ false
      → leb r.expires_at rt.db_now ≡ true
      → IsShown rt o project r db (tombstone is_expired r)
  active :
      (plain : Text) (b : Body)
      → is_some r.deleted_at ≡ false
      → leb r.expires_at rt.db_now ≡ false
      → o.crypto.open_sealed project r.conversation_id r.id r.sealed ≡ ok plain
      → o.decode plain ≡ some b
      → agrees r.forwarded_from b.forward ≡ true
      → IsShown rt o project r db (live_message r b db)

module _ (rt : Runtime) (o : Outside) (project : ℕ) (r : MessageRow) (db : Db) where
  pub scan-IsShown : Gives (IsShown rt o project r db) (scan rt o project r db)
  unfolding scan
  scan-IsShown = go (is_some r.deleted_at) refl (leb r.expires_at rt.db_now) refl _ refl
    where
      show :
          is_some r.deleted_at ≡ false
          → leb r.expires_at rt.db_now ≡ false
          → (plain : Text) → o.crypto.open_sealed project r.conversation_id r.id r.sealed ≡ ok plain
          → (x : Option Body) → o.decode plain ≡ x
          → Gives (IsShown rt o project r db) (show_body r db x)
      show d e plain opened none decodes = refused
      show d e plain opened (some b) decodes = fits (agrees r.forwarded_from b.forward) refl
        where
          fits :
              (f : Bool)
              → agrees r.forwarded_from b.forward ≡ f
              → Gives
                  (IsShown rt o project r db)
                  (if f then ok (live_message r b db) else err crypto)
          fits true w = given (active plain b d e opened decodes w)
          fits false w = refused

      go :
          (d : Bool)
          → is_some r.deleted_at ≡ d
          → (e : Bool) → leb r.expires_at rt.db_now ≡ e
          → (x : Result Text) → o.crypto.open_sealed project r.conversation_id r.id r.sealed ≡ x
          → Gives (IsShown rt o project r db) (
              if d
              then ok (tombstone is_deleted r)
              else if e
              then ok (tombstone is_expired r)
              else decoded o r db x)
      go true d e h x w = given (deleted d)
      go false d true h x w = given (expired d h)
      go false d false h (err f) w = refused
      go false d false h (ok plain) w = show d h plain w (o.decode plain) refl

  pub shown-IsOf : (m : Message) → IsShown rt o project r db m → IsOf r m
  shown-IsOf m (deleted d) = record {
    id = refl;
    conversation = refl;
    sender = refl;
    type = refl;
    sequence = refl;
    version = refl;
    expires = refl;
    deleted = refl;
  }
  shown-IsOf m (expired d e) = record {
    id = refl;
    conversation = refl;
    sender = refl;
    type = refl;
    sequence = refl;
    version = refl;
    expires = refl;
    deleted = refl;
  }
  shown-IsOf m (active plain b d e opened decodes w) = record {
    id = refl;
    conversation = refl;
    sender = refl;
    type = refl;
    sequence = refl;
    version = refl;
    expires = refl;
    deleted = refl;
  }

-- A message that is shown under an identifier is shown of the row that has it.
pub record IsFound (rt : Runtime) (o : Outside) (project id : ℕ) (db : Db) (m : Message)
    : Type 0 where
  pub row : MessageRow
  pub found : message_row project id db ≡ some row
  pub shown : IsShown rt o project row db m

pub scan_id-IsFound :
    (rt : Runtime) (o : Outside) (project id : ℕ) (db : Db)
    → Gives (IsFound rt o project id db) (scan_id rt o project id db)
unfolding scan_id
scan_id-IsFound rt o project id db =
    row-Gives _ _ _ _ db λ r e. go r e _ (scan-IsShown rt o project r db)
  where
    go :
        (r : MessageRow)
        → message_row project id db ≡ some r
        → (x : Result Message) → Gives (IsShown rt o project r db) x
        → Gives (IsFound rt o project id db) x
    go r e (ok m) (given h) = given (record { row = r; found = e; shown = h })
    go r e (err f) h = refused

pub message_key-id : (project id : ℕ) (r : MessageRow) → message_key project id r ≡ true → r.id ≡ id
message_key-id project id r h = ground arith

-- The row that is shown is the one that the identifier finds.
pub found-IsOf :
    (rt : Runtime) (o : Outside) (project id : ℕ) (db : Db) (m : Message) (r : MessageRow)
    → scan_id rt o project id db ≡ ok m
    → message_row project id db ≡ some r
    → IsOf r m
found-IsOf rt o project id db m r e found =
    let h : IsFound rt o project id db m =
      Gives-ok (IsFound rt o project id db) _ m (scan_id-IsFound rt o project id db) e in
    let one : h.row ≡ r = cc in
    subst (λ x. IsOf x m) one (shown-IsOf rt o project h.row db m h.shown)

pub found-id :
    (rt : Runtime) (o : Outside) (project id : ℕ) (db : Db) (m : Message)
    → scan_id rt o project id db ≡ ok m
    → m.id ≡ id
found-id rt o project id db m e =
    let h : IsFound rt o project id db m =
      Gives-ok (IsFound rt o project id db) _ m (scan_id-IsFound rt o project id db) e in
    (shown-IsOf rt o project h.row db m h.shown).id
    ∙ message_key-id project id h.row
        (find_sound (message_key project id) db.messages h.row h.found)

-- A live row whose body opens is shown with it.
pub scan-live :
    (rt : Runtime) (o : Outside) (project : ℕ) (r : MessageRow) (db : Db) (plain : Text) (b : Body)
    → is_some r.deleted_at ≡ false
    → leb r.expires_at rt.db_now ≡ false
    → o.crypto.open_sealed project r.conversation_id r.id r.sealed ≡ ok plain
    → o.decode plain ≡ some b
    → agrees r.forwarded_from b.forward ≡ true
    → scan rt o project r db ≡ ok (live_message r b db)
unfolding scan
scan-live rt o project r db plain b d e opened decodes w =
    rw (d, e, opened, decoded, decodes, show_body, w) refl

pub scan-deleted :
    (rt : Runtime) (o : Outside) (project : ℕ) (r : MessageRow) (db : Db)
    → is_some r.deleted_at ≡ true
    → scan rt o project r db ≡ ok (tombstone is_deleted r)
unfolding scan
scan-deleted rt o project r db d = rw d refl

pub scan_id-row :
    (rt : Runtime) (o : Outside) (project id : ℕ) (r : MessageRow) (db : Db)
    → message_row project id db ≡ some r
    → scan_id rt o project id db ≡ scan rt o project r db
unfolding scan_id
scan_id-row rt o project id r db e = row_hit db _ not_found _ r e
