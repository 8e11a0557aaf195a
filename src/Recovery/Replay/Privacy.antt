-- ===== src/Recovery/Replay/Privacy.antt =====
-- What every page holds, whatever the state of the changefeed: no gap, and no receipt that is off.
use al_ur_messenger.Prelude.{
  ℕ, suc, ◌≡◌, refl, ◌⊎◌, ◌∙◌, inl, inr, Bool, true, false, ◌||◌, not, some, List, [], ◌∷◌, ◌==◌,
  arith, Bool-cases, if◌then◌else◌, All,
}
use al_ur_messenger.Result.{Result, ok, err, resync}
use al_ur_messenger.Identity.{Actor}
use al_ur_messenger.Store.{Db, EventRow, Envelope, Flag, SettingsRow}
use al_ur_messenger.Store.Query.{
  Gives, Gives-ok, given, refused, row-Gives, step-Gives, bind-Gives, check-Gives, pure-Gives,
}
use al_ur_messenger.Conversation.Access.{settings_row}
use al_ur_messenger.Recovery.Access.{read_access}
use al_ur_messenger.Recovery.Replay.{
  Replay, collect, shown, replay_window, is_receipt, names_user, is_hidden, window_rows,
}

-- The events carry the numbers n+1, n+2, … up to m.
abbrev pub IsRun : ℕ → List Envelope → ℕ → Type 0
IsRun n [] m = n ≡ m
IsRun n (e ∷ es) m = (e.sequence ≡ suc n) × IsRun (suc n) es m

-- No receipt of another user while receipts are off.
abbrev pub is_open : Bool → ℕ → Envelope → Bool
is_open receipts user e = receipts || not (is_receipt e.kind) || names_user user e.payload

abbrev IsOpen : Bool → ℕ → Envelope → Type 0
IsOpen receipts user e = is_open receipts user e ≡ true

shown-IsOpen :
    (receipts : Bool) (user : ℕ) (e : Envelope) → IsOpen receipts user (shown receipts user e)
shown-IsOpen receipts user e = elim (Bool-cases (is_hidden receipts user e)) [
  | inl hidden ↦ rw hidden (ground arith)
  | inr plain ↦ rw plain (ground arith)
]

shown-sequence :
    (receipts : Bool) (user : ℕ) (e : Envelope) → (shown receipts user e).sequence ≡ e.sequence
shown-sequence receipts user e = elim (Bool-cases (is_hidden receipts user e)) [
  | inl hidden ↦ rw hidden refl
  | inr plain ↦ rw plain refl
]

abbrev IsCollected : Bool → ℕ → ℕ → List Envelope × ℕ → Type 0
IsCollected receipts user through (es, t) = IsRun through es t × All (IsOpen receipts user) es

collect-IsCollected :
    (receipts : Bool) (user through : ℕ) (rs : List EventRow)
    → Gives (IsCollected receipts user through) (collect receipts user through rs)
unfolding collect
collect-IsCollected receipts user through [] = given (refl, tt)
collect-IsCollected receipts user through (r ∷ rs) =
    go (collect receipts user r.envelope.sequence rs)
      (Bool-cases (r.envelope.sequence == suc through))
      (collect-IsCollected receipts user r.envelope.sequence rs)
  where
    go :
        (rest : Result (List Envelope × ℕ))
        → ((r.envelope.sequence == suc through) ≡ true)
          ⊎ ((r.envelope.sequence == suc through) ≡ false)
        → Gives (IsCollected receipts user r.envelope.sequence) rest
        → Gives (IsCollected receipts user through) (
            if r.envelope.sequence == suc through
            then (elim rest [
              | err e ↦ err e
              | ok (es, t) ↦ ok (shown receipts user r.envelope ∷ es, t)
            ])
            else err resync)
    go rest (inr gap) h = rw gap refused
    go (err e) (inl next) h = rw next refused
    go (ok (es, t)) (inl next) (given h) =
        let at : r.envelope.sequence ≡ suc through = ground arith in
        rw next (
          given (
            (shown-sequence receipts user r.envelope ∙ at, rw at at h.0),
            (shown-IsOpen receipts user r.envelope, h.1),
          ))

pub record IsServed (a : Actor) (id after : ℕ) (db : Db) (r : Replay) : Type 0 where
  pub allowed : read_access a id db ≡ ok tt
  pub settings : SettingsRow
  pub with_settings : settings_row a.project_id db ≡ some settings
  pub run : IsRun after r.events r.through
  pub visible : All (IsOpen (settings.flags Flag.read_receipts) a.user_id) r.events

replay_window-IsServed :
    (a : Actor) (id after limit : ℕ) (db : Db)
    → Gives (IsServed a id after db) (replay_window a id after limit db)
unfolding replay_window
replay_window-IsServed a id after limit db = step-Gives _ _ _ db λ _ allowed.
    row-Gives _ _ _ _ db λ c found. row-Gives _ _ _ _ db λ s with_settings.
      check-Gives _ _ _ db λ inside.
        bind-Gives _ _ _ db
          (collect-IsCollected (s.flags Flag.read_receipts) a.user_id after
            (window_rows a.project_id id after c.event_sequence limit db))
          λ (es, t) h. check-Gives _ _ _ db λ complete. pure-Gives _ _ db (record {
            allowed = allowed;
            settings = s;
            with_settings = with_settings;
            run = h.0;
            visible = h.1;
          })

-- Only an active member of a live conversation is served. A page that is served follows its cursor without a gap: its events are numbered from the one after
-- the cursor up to `through`. And while the Project's receipts are off it holds no receipt of
-- another user than the caller.
pub replay-IsServed :
    (a : Actor) (id after limit : ℕ) (db : Db) (r : Replay)
    → replay_window a id after limit db ≡ ok r
    → IsServed a id after db r
replay-IsServed a id after limit db r =
    Gives-ok (IsServed a id after db) _ r (replay_window-IsServed a id after limit db)
