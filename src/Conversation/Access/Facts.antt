-- ===== src/Conversation/Access/Facts.antt =====
-- What a caller who passes the checks of membershipTx is.
use al_ur_messenger.Prelude.{ℕ, ◌≡◌, Bool, true, false, some, List, arith, is_none}
use al_ur_messenger.Prelude.Table.{find, keep_if-eq-some}
use al_ur_messenger.Identity.{Actor}
use al_ur_messenger.Store.{Db, conversation_key, member_key}
use al_ur_messenger.Store.Query.{Gives, row-Gives, step-Gives, bind-Gives, check-Gives, pure-Gives}
use al_ur_messenger.Conversation.Access.{Conversation, get, membership_tx}

-- The caller has an active membership of a live conversation in an active Project.
pub record IsMember (a : Actor) (id : ℕ) (db : Db) (c : Conversation) : Type 0 where
  pub found : find (conversation_key a.project_id id) db.conversations ≡ some c.row
  pub live : is_none c.row.deleted_at ≡ true
  pub joined : find (member_key a.project_id id a.user_id) db.members ≡ some c.membership
  pub active : is_none c.membership.left_at ≡ true

pub get-IsMember : (a : Actor) (id : ℕ) (db : Db) → Gives (IsMember a id db) (get a id db)
unfolding get
get-IsMember a id db = row-Gives _ _ _ _ db λ row found. row-Gives _ _ _ _ db λ p active.
    row-Gives _ _ _ _ db λ m joined.
      let (at, live) = keep_if-eq-some _ _ row found in
      let (of_actor, present) = keep_if-eq-some _ _ m joined in
      pure-Gives _ _ db (record { found = at; live = live; joined = of_actor; active = present })

-- A caller who passes membershipTx is an active member who is not banned there.
pub membership_tx-IsMember :
    (a : Actor) (id : ℕ) (others : List ℕ) (inviting : Bool) (db : Db)
    → Gives
        (λ c. IsMember a id db c × (c.membership.banned ≡ false))
        (membership_tx a id others inviting db)
unfolding membership_tx
membership_tx-IsMember a id others inviting db = step-Gives _ _ _ db λ _ project.
    step-Gives _ _ _ db λ _ users. row-Gives _ _ _ _ db λ _ locked.
      bind-Gives _ _ _ db (get-IsMember a id db)
        λ c member. check-Gives _ _ _ db λ allowed. pure-Gives _ _ db (member, ground arith)
