-- ===== src/Tests/Policy.antt =====
-- The settings at concrete inputs.
use al_ur_messenger.Prelude.{◌≡◌, refl, true, false, none, some, [], ◌∷◌, All, arith}
use al_ur_messenger.Result.{Result, is_ok}
use al_ur_messenger.Identity.{Actor, Kind}
use al_ur_messenger.Store.{Db, SettingsRow, Flag}
use al_ur_messenger.Store.Tx.{after}
use al_ur_messenger.Policy.{Patch, update, validate, write_settings, fields}
use al_ur_messenger.Policy.Access.{update_access}
use al_ur_messenger.Policy.Facts.{IsBounded, update-IsBounded}
use al_ur_messenger.Policy.Versions.{update_once}
use al_ur_messenger.Tests.World.{clock, rt, trace, empty_db, running}

abbrev admin : Actor
admin = record { project_id = 1; user_id = 10; admin = true; is_banned = false; kind = Kind.human }

abbrev shorter : Patch
shorter = record {
  expected_version = 1;
  flags = (some Flag.allow_bots, some false) ∷ [];
  max_upload_size = none;
  retention_days = some 7;
  blacklist_enabled = none;
  blacklist_policy = none;
}

changed : Result (SettingsRow × Db)
changed = update rt admin shorter trace empty_db

update-IsBounded_example :
    All IsBounded (after empty_db (update rt admin shorter trace empty_db)).settings
update-IsBounded_example =
    update-IsBounded rt admin shorter trace empty_db
      ((omega arith, omega arith, omega arith, omega arith), tt)

update_once_example :
    is_ok (update (clock 900) admin shorter trace (after empty_db changed)) ≡ false
unfolding changed running update validate write_settings fields update_access
update_once_example =
    update_once rt (clock 900) admin admin shorter shorter trace trace empty_db
      (after empty_db changed) _ refl refl refl
