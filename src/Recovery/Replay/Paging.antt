-- ===== src/Recovery/Replay/Paging.antt =====
-- What a page of the changefeed holds, and what it hides.
use al_ur_messenger.Prelude.{
  ℕ, suc, ◌+◌, ◌≡◌, ◌≤◌, refl, ◌∙◌, ap, Bool, false, ◌&&◌, some, List, [], ◌∷◌, map, min, length,
  take, ltb, arith,
}
use al_ur_messenger.Prelude.Table.{find, select, order_by}
use al_ur_messenger.Result.{ok, no_rows}
use al_ur_messenger.Identity.{Actor}
use al_ur_messenger.Store.{
  Db, ConversationRow, SettingsRow, EventRow, Envelope, Flag, conversation_key, event_of,
}
use al_ur_messenger.Store.Query.{row_hit, check_passes, bind_hit, pure}
use al_ur_messenger.Event.Log.{IsNumbered, IsLogged, log}
use al_ur_messenger.Conversation.Access.{settings_row}
use al_ur_messenger.Recovery.Access.{read_access}
use al_ur_messenger.Recovery.Replay.{Replay, collect, shown, in_window, window_rows, replay_window}
use al_ur_messenger.Recovery.Replay.Window.{
  select-and, select-IsNumbered, order_by-IsNumbered, take-IsNumbered,
}

abbrev pub shown_rows : Bool → ℕ → List EventRow → List Envelope
shown_rows receipts user = map (λ r. shown receipts user r.envelope)

collect-IsNumbered :
    (receipts : Bool) (user n m : ℕ) (rs : List EventRow)
    → IsNumbered n rs m
    → collect receipts user n rs ≡ ok (shown_rows receipts user rs, m)
unfolding collect
collect-IsNumbered receipts user n m [] h = ap (λ t. ok ([], t)) h
collect-IsNumbered receipts user n m (r ∷ rs) h =
    rw (h.1, collect-IsNumbered receipts user (suc n) m rs h.2) (ground arith)

length-IsNumbered : (n m : ℕ) (rs : List EventRow) → IsNumbered n rs m → n + length rs ≡ m
length-IsNumbered n m [] h = omega arith
length-IsNumbered n m (r ∷ rs) h = omega (arith, length-IsNumbered (suc n) m rs h.2)

pub length-shown :
    (receipts : Bool) (user : ℕ) (rs : List EventRow)
    → length (shown_rows receipts user rs) ≡ length rs
length-shown receipts user [] = refl
length-shown receipts user (r ∷ rs) = ap suc (length-shown receipts user rs)

-- The events of the log after a cursor, `limit` of them at most.
abbrev pub page : ℕ → ℕ → ℕ → ℕ → ℕ → Db → List EventRow
page project id after high limit db = take limit (select (in_window after high) (log project id db))

module _ (project id after high limit : ℕ) (db : Db)
    (numbered : IsNumbered 0 (log project id db) high) (inside : after ≤ high) where
  window_rows-page :
      window_rows project id after high limit db ≡ page project id after high limit db
  window_rows-page =
      ap (λ rs. take limit (order_by (λ r. r.sequence) rs))
        (select-and (event_of project id) (in_window after high) db.events)
      ∙ ap (take limit) (
          order_by-IsNumbered after high _
            (select-IsNumbered 0 high after (log project id db) numbered (omega arith) inside))

  page-IsNumbered :
      IsNumbered after (page project id after high limit db) (min (after + limit) high)
  page-IsNumbered =
      take-IsNumbered limit after high _
        (select-IsNumbered 0 high after (log project id db) numbered (omega arith) inside) inside

-- A page of a gapless log is served whole: the events right after the cursor, in order.
module _ (a : Actor) (id after limit : ℕ) (db : Db) (c : ConversationRow) (s : SettingsRow) where
  abbrev pub full_page : Replay
  full_page = record {
    events =
        shown_rows (s.flags Flag.read_receipts) a.user_id
          (page a.project_id id after c.event_sequence limit db);
    through = min (after + limit) c.event_sequence;
    high = c.event_sequence;
    more = ltb (min (after + limit) c.event_sequence) c.event_sequence;
  }

  -- A member whose cursor lies inside a gapless changefeed is served the events right after it, in
  -- order and as many as the limit allows, with the receipts of others blanked if they are off;
  -- the page itself never answers RESYNC_REQUIRED, and `more` tells exactly whether events are left.
  pub replay_page :
      IsLogged db
      → read_access a id db ≡ ok tt
      → find (conversation_key a.project_id id) db.conversations ≡ some c
      → settings_row a.project_id db ≡ some s
      → after ≤ c.event_sequence
      → replay_window a id after limit db ≡ ok full_page
  unfolding replay_window pure
  replay_page v allowed found with_settings inside =
      bind_hit db (read_access a id) _ tt allowed
      ∙ (row_hit db _ no_rows _ c found
          ∙ (row_hit db _ no_rows _ s with_settings
              ∙ (check_passes db _ _ (ground arith)
                  ∙ (bind_hit db _ _ _ (
                        ap (collect (s.flags Flag.read_receipts) a.user_id after) (
                          window_rows-page a.project_id id after c.event_sequence limit db numbered
                            inside)
                        ∙ collect-IsNumbered _ a.user_id after _ _ in_order)
                      ∙ check_passes db _ _ (rw complete refl)))))
    where
      numbered : IsNumbered 0 (log a.project_id id db) c.event_sequence
      numbered = rw found at (v.contiguous a.project_id id)

      in_order :
          IsNumbered after
            (page a.project_id id after c.event_sequence limit db)
            (min (after + limit) c.event_sequence)
      in_order = page-IsNumbered a.project_id id after c.event_sequence limit db numbered inside

      complete :
          (ltb (min (after + limit) c.event_sequence) c.event_sequence
            && ltb
                (length (
                  shown_rows
                    (s.flags Flag.read_receipts)
                    a.user_id
                    (page a.project_id id after c.event_sequence limit db)))
                limit)
          ≡ false
      complete =
          let shown_all =
            length-shown (s.flags Flag.read_receipts) a.user_id
              (page a.project_id id after c.event_sequence limit db) in
          let counted = length-IsNumbered after _ _ in_order in ground arith
