-- ===== src/Conversation/Members/Moderators.antt =====
-- Every GROUP and CHANNEL keeps a moderator who can act: active and not banned in it.
use al_ur_messenger.Prelude.{
  ℕ, ◌≡◌, refl, ◌⊎◌, inl, inr, Bool, true, false, ◌&&◌, ◌||◌, not, Option, none, some, List, ◌==◌,
  arith, Bool-cases, Option-cases,
}
use al_ur_messenger.Prelude.Table.{
  find, exists, update_first, exists-update_first, exists-update_first_other, exists_mono,
  exists-append, find-update_first_same, find_sound,
}
use al_ur_messenger.Runtime.{Runtime}
use al_ur_messenger.Identity.{Actor}
use al_ur_messenger.Event.{bump_event}
use al_ur_messenger.Store.Tx.{Post, Post-mono}
use al_ur_messenger.Conversation.{AddMembers, MemberPatch, Trace}
use al_ur_messenger.Conversation.Audit.{IsAudited, audited_members, audited_conversations}
use al_ur_messenger.Conversation.Membership.{demotes, bans}
use al_ur_messenger.Conversation.Members.{
  add_members, patch_member, remove_member, update_member, patched, departed, rejoin, has_left,
  upsert, upsert_at,
}
use al_ur_messenger.Conversation.Members.Frame.{
  add_members-keeps, patch_member-IsPatched, remove_member-IsRemoved,
}
use al_ur_messenger.Store.{
  Db, MemberRow, ConversationRow, is_direct, member_key, member_of, conversation_key,
}
use al_ur_messenger.Conversation.Membership.{is_acting}
use al_ur_messenger.Conversation.Membership.Facts.{is_other_moderator, CanPatch}

-- Whether the row is there and of a type that has moderators.
abbrev pub has_moderators : Option ConversationRow → Bool
has_moderators none = false
has_moderators (some c) = not (is_direct c.type)

abbrev pub is_acting_of : ℕ → ℕ → MemberRow → Bool
is_acting_of project id m = member_of project id m && is_acting m

abbrev pub AreModerated : List ConversationRow → List MemberRow → Type 0
AreModerated cs ms =
    (project id : ℕ)
    → has_moderators (find (conversation_key project id) cs) ≡ true
    → exists (is_acting_of project id) ms ≡ true

abbrev pub HasModerators : Db → Type 0
HasModerators db = AreModerated db.conversations db.members

-- An update of conversations that keeps keys and types.
pub AreModerated-update_conversation :
    (q : ConversationRow → Bool) (f : ConversationRow → ConversationRow) (cs : List ConversationRow)
    (ms : List MemberRow)
    → ((c : ConversationRow) → (f c).project_id ≡ c.project_id)
    → ((c : ConversationRow) → (f c).id ≡ c.id)
    → ((c : ConversationRow) → (f c).type ≡ c.type)
    → AreModerated cs ms
    → AreModerated (update_first q f cs) ms
AreModerated-update_conversation q f cs ms hp hi ht v project id h = v project id (
    rw
      (← find-update_first_same has_moderators (conversation_key project id) q f cs
        (λ c. rw (hp c, hi c)) (λ c. rw (ht c)))
      h)

-- The row that a command meets is no acting moderator, or stays one, or another one acts.
abbrev pub KeepsModerator : ℕ → ℕ → ℕ → (MemberRow → MemberRow) → List MemberRow → Type 0
KeepsModerator project id user f ms =
    (m : MemberRow)
    → find (member_key project id user) ms ≡ some m
    → is_acting m ≡ true
    → (is_acting (f m) ≡ true) ⊎ (exists (is_other_moderator project id user) ms ≡ true)

module _ (project id user : ℕ) (f : MemberRow → MemberRow) (ms : List MemberRow)
    (same_project : (m : MemberRow) → (f m).project_id ≡ m.project_id)
    (same_conversation : (m : MemberRow) → (f m).conversation_id ≡ m.conversation_id)
    (project' id' : ℕ) where
  other_acts :
      exists (is_other_moderator project id user) ms ≡ true
      → (project == project' && id == id') ≡ true
      → exists (is_acting_of project' id') (update_first (member_key project id user) f ms) ≡ true
  other_acts h same =
      exists-update_first_other (is_acting_of project' id') (member_key project id user) f ms
        (exists_mono _ _ ms (λ m e. ground arith) h)

  it_stays :
      ((m : MemberRow)
        → find (member_key project id user) ms ≡ some m
        → is_acting_of project' id' m ≡ true
        → is_acting (f m) ≡ true)
      → exists (is_acting_of project' id') ms ≡ true
      → exists (is_acting_of project' id') (update_first (member_key project id user) f ms) ≡ true
  it_stays k h =
      exists-update_first (is_acting_of project' id') (member_key project id user) f ms
        (λ m e acts.
          let acting = k m e acts in
          let p = same_project m in let c = same_conversation m in ground arith)
        h

  acting-update_first :
      KeepsModerator project id user f ms
      → exists (is_acting_of project' id') ms ≡ true
      → exists (is_acting_of project' id') (update_first (member_key project id user) f ms) ≡ true
  acting-update_first keeps h = elim (Option-cases (find (member_key project id user) ms)) [
    | inl absent ↦ it_stays (λ m e acts. cc) h
    | inr (m, found) ↦ elim (Bool-cases (is_acting m)) [
      | inr idle ↦ it_stays (λ n e acts. absurd (no_conflict m n found e idle acts)) h
      | inl acting ↦ elim (keeps m found acting) [
        | inl stays ↦ it_stays (λ n e acts. rw (the_row m n found e) stays) h
        | inr others ↦ elim (Bool-cases (project == project' && id == id')) [
          | inl same ↦ other_acts others same
          | inr apart ↦
              it_stays
                (λ n e acts. let k = find_sound (member_key project id user) ms n e in ground arith)
                h
        ]
      ]
    ]
  ]
    where
      the_row :
          (m n : MemberRow)
          → find (member_key project id user) ms ≡ some m
          → find (member_key project id user) ms ≡ some n
          → n ≡ m
      the_row m n found e = cc

      no_conflict :
          (m n : MemberRow)
          → find (member_key project id user) ms ≡ some m
          → find (member_key project id user) ms ≡ some n
          → is_acting m ≡ false
          → is_acting_of project' id' n ≡ true
          → ⊥
      no_conflict m n found e idle acts =
          let same = the_row m n found e in
          let idle' : is_acting n ≡ false = rw same idle in ground arith

-- One member row changes under its key: every conversation stays moderated.
pub AreModerated-update_member :
    (project id user : ℕ) (f : MemberRow → MemberRow) (cs : List ConversationRow)
    (ms : List MemberRow)
    → ((m : MemberRow) → (f m).project_id ≡ m.project_id)
    → ((m : MemberRow) → (f m).conversation_id ≡ m.conversation_id)
    → KeepsModerator project id user f ms
    → AreModerated cs ms
    → AreModerated cs (update_first (member_key project id user) f ms)
AreModerated-update_member project id user f cs ms hp hc keeps v project' id' h =
    acting-update_first project id user f ms hp hc project' id' keeps (v project' id' h)

pub audited-HasModerators :
    (rt : Runtime) (project id : ℕ) (db db' : Db)
    → IsAudited rt project id db db'
    → HasModerators db
    → HasModerators db'
audited-HasModerators rt project id db db' h v =
    rw (audited_members rt project id db db' h, audited_conversations rt project id db db' h)
      (AreModerated-update_conversation _ bump_event db.conversations db.members (λ c. refl)
        (λ c. refl) (λ c. refl) v)

upsert-HasModerators :
    (rt : Runtime) (project id user : ℕ) (db : Db)
    → HasModerators db
    → HasModerators (upsert rt project id user db)
unfolding upsert
upsert-HasModerators rt project id user db v =
    go (find (member_key project id user) db.members) refl
  where
    go :
        (o : Option MemberRow)
        → find (member_key project id user) db.members ≡ o
        → AreModerated db.conversations (upsert_at rt project id user db.members o)
    go none e = λ project' id' h. exists-append _ db.members _ (v project' id' h)
    go (some m) e = elim (Bool-cases (has_left m)) [
      | inl left ↦ rw left (
          AreModerated-update_member project id user rejoin db.conversations db.members (λ x. refl)
            (λ x. refl)
            (λ x found acts.
              let same : x ≡ m = cc in
              let left' : has_left x ≡ true = rw same left in absurd (ground arith))
            v)
      | inr here ↦ rw here v
    ]

-- Inviting users keeps a moderator in every GROUP and CHANNEL, whoever else is invited.
pub add_members-HasModerators :
    (rt : Runtime) (a : Actor) (id : ℕ) (p : AddMembers) (trace : Trace) (db : Db)
    → HasModerators db
    → Post (λ _ db'. HasModerators db') (add_members rt a id p trace db)
add_members-HasModerators rt a id p trace db v =
    add_members-keeps rt a id trace HasModerators (upsert-HasModerators rt a.project_id id)
      (audited-HasModerators rt a.project_id id) p db v

-- A patch that neither demotes nor bans leaves an acting moderator one.
patched-acting :
    (p : MemberPatch) (m : MemberRow)
    → (demotes p || bans p) ≡ false
    → is_acting m ≡ true
    → is_acting (patched p m) ≡ true
patched-acting p m h acts = ground arith

patched-KeepsModerator :
    (a : Actor) (id user : ℕ) (p : MemberPatch) (db : Db) (before : MemberRow)
    → CanPatch a id user p db before
    → KeepsModerator a.project_id id user (patched p) db.members
patched-KeepsModerator a id user p db before c m found acts =
    elim (Bool-cases (demotes p || bans p)) [
      | inl weakens ↦
          let same : m ≡ before = cc (c.target.0) in inr (c.keeps (rw (← same) (ground arith)))
      | inr strong ↦ inl (patched-acting p m strong acts)
    ]

pub patch_member-HasModerators :
    (rt : Runtime) (a : Actor) (id user : ℕ) (p : MemberPatch) (trace : Trace) (db : Db)
    → HasModerators db
    → Post (λ _ db'. HasModerators db') (patch_member rt a id user p trace db)
unfolding update_member
patch_member-HasModerators rt a id user p trace db v =
    Post-mono _ _ _ (patch_member-IsPatched rt a id user p trace db) λ m db' h.
      audited-HasModerators rt a.project_id id _ db' h.audited (
        AreModerated-update_member a.project_id id user (patched p) db.conversations db.members
          (λ x. refl) (λ x. refl) (patched-KeepsModerator a id user p db h.before h.allowed) v)

pub remove_member-HasModerators :
    (rt : Runtime) (a : Actor) (id user : ℕ) (trace : Trace) (db : Db)
    → HasModerators db
    → Post (λ _ db'. HasModerators db') (remove_member rt a id user trace db)
unfolding update_member
remove_member-HasModerators rt a id user trace db v =
    Post-mono _ _ _ (remove_member-IsRemoved rt a id user trace db) λ m db' h.
      audited-HasModerators rt a.project_id id _ db' h.audited (
        AreModerated-update_member a.project_id id user (departed rt) db.conversations db.members
          (λ x. refl) (λ x. refl)
          (λ x found acts.
            let same : x ≡ h.before = cc (h.allowed.target.0) in
            inr (h.allowed.keeps (rw (← same) (ground arith))))
          v)
