-- ===== src/Policy/Versions.antt =====
-- No update of the settings is lost.
use al_ur_messenger.Prelude.{suc, ◌≡◌, refl, ap, false, some, ◌==◌, arith}
use al_ur_messenger.Prelude.Table.{find_sound, find-update_first}
use al_ur_messenger.Result.{Result, ok, err, is_ok}
use al_ur_messenger.Runtime.{Runtime}
use al_ur_messenger.Identity.{Actor}
use al_ur_messenger.Store.{Db, SettingsRow}
use al_ur_messenger.Store.Tx.{Post-ok}
use al_ur_messenger.Conversation.{Trace}
use al_ur_messenger.Conversation.Access.{settings_row}
use al_ur_messenger.Policy.{Patch, patched, update}
use al_ur_messenger.Policy.Facts.{IsUpdated, update-IsUpdated}

-- The settings that an update leaves.
updated_row :
    (a : Actor) (p : Patch) (db db' : Db) (r : SettingsRow) (h : IsUpdated a p db r db')
    → settings_row a.project_id db' ≡ some (patched p h.before)
updated_row a p db db' r h = rw h.settings (
    find-update_first (λ s. s.project_id == a.project_id) (patched p) db.settings h.before
      h.allowed.found
      (find_sound (λ s. s.project_id == a.project_id) db.settings h.before h.allowed.found))

stale :
    (a b : Actor) (p q : Patch) (db db' db'' : Db) (r r' : SettingsRow)
    → a.project_id ≡ b.project_id
    → q.expected_version ≡ p.expected_version
    → IsUpdated a p db r db'
    → IsUpdated b q db' r' db''
    → ⊥
stale a b p q db db' db'' r r' project version h k =
    let left = updated_row a p db db' r h in
    let met : settings_row a.project_id db' ≡ some k.before = rw project k.allowed.found in
    let same : patched p h.before ≡ k.before = cc in
    let next : suc h.before.version ≡ k.before.version = ap (λ s. s.version) same in
    let old = h.allowed.current in let new = k.allowed.current in absurd (omega arith)

-- After an update of the settings, another update of the same Project with the same expected version
-- fails, whoever sends it: of two administrators who edit the same version, one is told.
pub update_once :
    (rt rt' : Runtime) (a b : Actor) (p q : Patch) (trace trace' : Trace) (db db' : Db)
    (r : SettingsRow)
    → update rt a p trace db ≡ ok (r, db')
    → a.project_id ≡ b.project_id
    → q.expected_version ≡ p.expected_version
    → is_ok (update rt' b q trace' db') ≡ false
update_once rt rt' a b p q trace trace' db db' r e project version =
    go (update rt' b q trace' db') refl
  where
    first : IsUpdated a p db r db'
    first = Post-ok _ _ r db' (update-IsUpdated rt a p trace db) e

    go : (o : Result (SettingsRow × Db)) → update rt' b q trace' db' ≡ o → is_ok o ≡ false
    go (err x) k = refl
    go (ok (r', db'')) k = absurd (
        stale a b p q db db' db'' r r' project version first
          (Post-ok _ _ r' db'' (update-IsUpdated rt' b q trace' db') k))
