-- ===== src/Conversation/Membership/Facts.antt =====
-- What a command on memberships knows once its checks have passed.
use al_ur_messenger.Prelude.{
  ℕ, ◌≡◌, refl, ◌⊎◌, Bool, true, false, ◌&&◌, ◌||◌, not, some, [], ◌∷◌, ◌==◌, arith, is_none,
  is_some,
}
use al_ur_messenger.Prelude.Table.{find, exists, keep_if-eq-some}
use al_ur_messenger.Result.{guard, last_moderator}
use al_ur_messenger.Identity.{Actor, is_human}
use al_ur_messenger.Store.{
  Db, MemberRow, UserRow, is_moderator, is_direct, member_key, member_of, user_key,
}
use al_ur_messenger.Store.Query.{
  Gives, row-Gives, bind-Gives, check-Gives, pure-Gives, check_end, given, refused,
}
use al_ur_messenger.Conversation.{AddMembers, MemberPatch}
use al_ur_messenger.Conversation.Access.{Conversation}
use al_ur_messenger.Conversation.Access.Facts.{IsMember, membership_tx-IsMember}
use al_ur_messenger.Conversation.Membership.{
  is_acting, keep_moderator, promotes, demotes, bans, needs_moderator, add_access, patch_access,
  remove_access, check_human, keep_if_needed,
}

-- A member row that another than `user` holds, and who can moderate.
abbrev pub is_other_moderator : ℕ → ℕ → ℕ → MemberRow → Bool
is_other_moderator project id user m =
    member_of project id m && not (m.user_id == user) && is_acting m

-- The target of a command, as the statement FOR UPDATE reads it.
abbrev pub IsTarget : ℕ → ℕ → ℕ → Db → MemberRow → Type 0
IsTarget project id user db m =
    (find (member_key project id user) db.members ≡ some m) × (is_none m.left_at ≡ true)

pub record CanPatch (a : Actor) (id user : ℕ) (p : MemberPatch) (db : Db) (m : MemberRow)
    : Type 0 where
  pub caller : Conversation
  pub is_member : IsMember a id db caller
  pub not_banned : caller.membership.banned ≡ false
  pub manages : needs_moderator p ≡ true → is_moderator caller.membership.role ≡ true
  pub not_direct : needs_moderator p ≡ true → is_direct caller.row.type ≡ false
  pub own_mute : is_some p.muted ≡ true → (user == a.user_id) ≡ true
  pub target : IsTarget a.project_id id user db m
  pub version : m.version ≡ p.expected_version
  pub human :
      promotes p ≡ true
      → (u : UserRow) × (find (user_key a.project_id user) db.users ≡ some u)
        × (is_human u.kind ≡ true)
  pub keeps :
      (is_moderator m.role && (demotes p || bans p)) ≡ true
      → exists (is_other_moderator a.project_id id user) db.members ≡ true

check_human-Gives :
    (project user : ℕ) (b : Bool) (db : Db)
    → Gives
        (λ _.
          b ≡ true
          → (u : UserRow) × (find (user_key project user) db.users ≡ some u)
            × (is_human u.kind ≡ true))
        (check_human project user b db)
unfolding check_human
check_human-Gives project user false db = pure-Gives _ _ db (λ e. cc)
check_human-Gives project user true db =
    row-Gives _ _ _ _ db λ u found. check_end _ _ db λ h _. (u, found, ground arith)

keep_if_needed-Gives :
    (project id user : ℕ) (b : Bool) (db : Db)
    → Gives
        (λ _. b ≡ true → exists (is_other_moderator project id user) db.members ≡ true)
        (keep_if_needed project id user b db)
unfolding keep_if_needed keep_moderator
keep_if_needed-Gives project id user false db = pure-Gives _ _ db (λ e. cc)
keep_if_needed-Gives project id user true db =
    guarded (exists (is_other_moderator project id user) db.members) refl
  where
    guarded :
        (b : Bool)
        → exists (is_other_moderator project id user) db.members ≡ b
        → Gives
            (λ _. true ≡ true → exists (is_other_moderator project id user) db.members ≡ true)
            (guard b last_moderator)
    guarded true e = given (λ _. e)
    guarded false e = refused

pub patch_access-CanPatch :
    (a : Actor) (id user : ℕ) (p : MemberPatch) (db : Db)
    → Gives (CanPatch a id user p db) (patch_access a id user p db)
unfolding patch_access
patch_access-CanPatch a id user p db =
    bind-Gives _ _ _ db (membership_tx-IsMember a id (user ∷ []) false db) λ c caller.
      check-Gives _ _ _ db λ direct. check-Gives _ _ _ db λ allowed.
        row-Gives _ _ _ _ db λ m target. check-Gives _ _ _ db λ version.
          bind-Gives _ _ _ db (check_human-Gives a.project_id user (promotes p) db) λ _ human.
            bind-Gives _ _ _ db (keep_if_needed-Gives a.project_id id user _ db) λ _ keeps.
              pure-Gives _ _ db (record {
                caller = c;
                is_member = caller.0;
                not_banned = caller.1;
                manages = ground arith;
                not_direct = ground arith;
                own_mute = ground arith;
                target = keep_if-eq-some _ _ m target;
                version = ground arith;
                human = human;
                keeps = keeps;
              })

pub record CanRemove (a : Actor) (id user : ℕ) (db : Db) (m : MemberRow) : Type 0 where
  pub caller : Conversation
  pub is_member : IsMember a id db caller
  pub not_banned : caller.membership.banned ≡ false
  pub not_direct : is_direct caller.row.type ≡ false
  pub manages : ((user == a.user_id) ≡ true) ⊎ (is_moderator caller.membership.role ≡ true)
  pub target : IsTarget a.project_id id user db m
  pub keeps :
      is_moderator m.role ≡ true
      → exists (is_other_moderator a.project_id id user) db.members ≡ true

pub remove_access-CanRemove :
    (a : Actor) (id user : ℕ) (db : Db)
    → Gives (CanRemove a id user db) (remove_access a id user db)
unfolding remove_access
remove_access-CanRemove a id user db =
    bind-Gives _ _ _ db (membership_tx-IsMember a id (user ∷ []) false db) λ c caller.
      check-Gives _ _ _ db λ direct. check-Gives _ _ _ db λ allowed.
        row-Gives _ _ _ _ db λ m target.
          bind-Gives _ _ _ db (keep_if_needed-Gives a.project_id id user _ db) λ _ keeps.
            pure-Gives _ _ db (record {
              caller = c;
              is_member = caller.0;
              not_banned = caller.1;
              not_direct = ground arith;
              manages = ground arith;
              target = keep_if-eq-some _ _ m target;
              keeps = keeps;
            })

-- A caller who may invite is an active moderator of a GROUP or CHANNEL.
pub record CanAdd (a : Actor) (id : ℕ) (db : Db) : Type 0 where
  pub caller : Conversation
  pub is_member : IsMember a id db caller
  pub not_banned : caller.membership.banned ≡ false
  pub manages : is_moderator caller.membership.role ≡ true
  pub not_direct : is_direct caller.row.type ≡ false

pub add_access-CanAdd :
    (a : Actor) (id : ℕ) (p : AddMembers) (db : Db)
    → Gives (λ _. CanAdd a id db) (add_access a id p db)
unfolding add_access
add_access-CanAdd a id p db =
    bind-Gives _ _ _ db (membership_tx-IsMember a id p.user_ids true db) λ c caller.
      check-Gives _ _ _ db λ direct. check_end _ _ db λ allowed. record {
        caller = c;
        is_member = caller.0;
        not_banned = caller.1;
        manages = ground arith;
        not_direct = ground arith;
      }
