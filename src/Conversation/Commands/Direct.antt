-- ===== src/Conversation/Commands/Direct.antt =====
-- A DIRECT conversation is unique for its two people.
use al_ur_messenger.Prelude.{
  ℕ, ◌≡◌, refl, sym, ◌∙◌, Bool, true, false, Option, none, some, List, [], ◌∷◌, ◌++◌, arith,
}
use al_ur_messenger.Prelude.Table.{find, order_by, find-append_new, find_sound}
use al_ur_messenger.Result.{ok}
use al_ur_messenger.Runtime.{Runtime}
use al_ur_messenger.Identity.{Actor}
use al_ur_messenger.Event.Log.{==_pair}
use al_ur_messenger.Store.{Db, PairRow, conversation_key}
use al_ur_messenger.Store.Tx.{
  Post, Post-ok, Post-mono, query->>=, check->>=, draw->>=, write->>=, bind->>=, commit-Post,
}
use al_ur_messenger.Store.Query.{Gives->>=}
use al_ur_messenger.Conversation.{Create, Trace}
use al_ur_messenger.Conversation.Access.{Conversation}
use al_ur_messenger.Conversation.Access.Facts.{IsMember, get-IsMember}
use al_ur_messenger.Conversation.Audit.{audit-IsAudited, audited_pairs}
use al_ur_messenger.Conversation.Commands.{
  create, create_new, create_or_get, insert_conversation, participants, is_direct_type, pair_key,
  existing_pair, new_pairs, pair_row,
}

-- The pair of participants has the conversation `id`.
abbrev pub HasPair : ℕ → List ℕ → ℕ → Db → Type 0
HasPair project ids id db =
    (r : PairRow) × (find (pair_key project ids) db.direct_pairs ≡ some r)
    × (r.conversation_id ≡ id)

found_id : (a : Actor) (id : ℕ) (db : Db) (c : Conversation) → IsMember a id db c → c.row.id ≡ id
found_id a id db c h =
    (==_pair c.row.project_id c.row.id a.project_id id
      (find_sound (conversation_key a.project_id id) db.conversations c.row h.found)).1

existing_pair-none :
    (project : ℕ) (ids : List ℕ) (db : Db)
    → existing_pair project ids true db ≡ ok none
    → find (pair_key project ids) db.direct_pairs ≡ none
unfolding existing_pair
existing_pair-none project ids db h = ground arith

existing_pair-some :
    (project : ℕ) (ids : List ℕ) (db : Db) (id : ℕ)
    → existing_pair project ids true db ≡ ok (some id)
    → HasPair project ids id db
unfolding existing_pair
existing_pair-some project ids db id h = ground arith

-- What a successful Create of a DIRECT has done: the pair has the conversation that it returns;
-- and if the pair had one before, it is that one, nothing is created and nothing changes.
pub record IsPaired (a : Actor) (p : Create) (db : Db) (r : Conversation × Bool) (db' : Db)
    : Type 0 where
  pub paired : HasPair a.project_id (participants a p) r.0.row.id db'
  pub again :
      (id : ℕ)
      → HasPair a.project_id (participants a p) id db
      → (r.0.row.id ≡ id) × (r.1 ≡ false) × (db' ≡ db)

pair_inserted :
    (a : Actor) (id : ℕ) (p : Create) (rs : List PairRow)
    → is_direct_type p.type ≡ true
    → find (pair_key a.project_id (participants a p)) rs ≡ none
    → find (pair_key a.project_id (participants a p)) (rs ++ new_pairs a id p (participants a p))
      ≡ some (pair_row a id (participants a p))
pair_inserted a id p rs direct absent =
    rw direct (find-append_new _ rs (pair_row a id (participants a p)) absent (ground arith))

create_new-HasPair :
    (rt : Runtime) (a : Actor) (p : Create) (trace : Trace) (db : Db)
    → is_direct_type p.type ≡ true
    → find (pair_key a.project_id (participants a p)) db.direct_pairs ≡ none
    → Post
        (λ r db'. HasPair a.project_id (participants a p) r.0.row.id db')
        (create_new rt a p (participants a p) trace db)
unfolding create_new insert_conversation
create_new-HasPair rt a p trace db direct absent = draw->>= _ rt _ db (
    query->>= _ _ _ _ λ _ free. write->>= _ _ _ _ (
      bind->>= _ _ _ _ (audit-IsAudited rt a _ _ _ trace _) λ _ db' h.
        Gives->>= _ _ _ db' (get-IsMember a (rt.new_id db.drawn) db') λ c member.
          commit-Post _ (c, true) db'
            (
              pair_row a (rt.new_id db.drawn) (participants a p),
              rw (audited_pairs rt a.project_id _ _ db' h)
                  (pair_inserted a (rt.new_id db.drawn) p db.direct_pairs direct absent),
              sym (found_id a _ db' c member),
            )))

same_pair :
    (project : ℕ) (ids : List ℕ) (db : Db) (i j : ℕ)
    → HasPair project ids i db
    → HasPair project ids j db
    → i ≡ j
same_pair project ids db i j (r, found, e) (s, found', e') = cc

none_and_some :
    (a : Actor) (p : Create) (db : Db) (id : ℕ)
    → existing_pair a.project_id (participants a p) true db ≡ ok none
    → HasPair a.project_id (participants a p) id db
    → ⊥
none_and_some a p db id e (r, found, same) =
    let absent = existing_pair-none a.project_id (participants a p) db e in cc

create_or_get-IsPaired :
    (rt : Runtime) (a : Actor) (p : Create) (trace : Trace) (db : Db) (o : Option ℕ)
    → is_direct_type p.type ≡ true
    → existing_pair a.project_id (participants a p) true db ≡ ok o
    → Post (IsPaired a p db) (create_or_get rt a p (participants a p) trace o db)
unfolding create_or_get
create_or_get-IsPaired rt a p trace db none direct e =
    Post-mono _ _ _
      (create_new-HasPair rt a p trace db direct (existing_pair-none a.project_id _ db e))
      λ r db' h. record { paired = h; again = λ id had. absurd (none_and_some a p db id e had) }
create_or_get-IsPaired rt a p trace db (some id) direct e =
    Gives->>= _ _ _ db (get-IsMember a id db) λ c member.
      let same = found_id a id db c member in
      let has = existing_pair-some a.project_id (participants a p) db id e in
      commit-Post _ (c, false) db
        (record {
          paired = (has.0, has.1, has.2 ∙ sym same);
          again = λ j had.
              (same ∙ same_pair a.project_id (participants a p) db id j has had, refl, refl);
        })

pub create-IsPaired :
    (rt : Runtime) (a : Actor) (p : Create) (trace : Trace) (db : Db)
    → is_direct_type p.type ≡ true
    → Post (IsPaired a p db) (create rt a p trace db)
unfolding create
create-IsPaired rt a p trace db direct = check->>= _ _ _ db λ valid. query->>= _ _ _ db λ _ locked.
    query->>= _ _ _ db λ _ users.
      query->>= _ _ _ db λ o e. create_or_get-IsPaired rt a p trace db o direct (rw direct at e)

sorted_pair : (x y : ℕ) → order_by (λ (t : ℕ). t) (x ∷ y ∷ []) ≡ order_by (λ t. t) (y ∷ x ∷ [])
unfolding order_by
sorted_pair x y = ground arith

-- If one person opens a DIRECT with another and then, before anything else changes, the other opens
-- one with the first, in the same Project, and both calls succeed, then the second returns the
-- conversation of the first, reports that it created nothing, and leaves every table as it was.
pub create_direct_twice :
    (rt : Runtime) (a b : Actor) (p q : Create) (trace trace' : Trace) (db db' db'' : Db)
    (c c' : Conversation) (new new' : Bool)
    → is_direct_type p.type ≡ true
    → is_direct_type q.type ≡ true
    → a.project_id ≡ b.project_id
    → p.member_ids ≡ b.user_id ∷ []
    → q.member_ids ≡ a.user_id ∷ []
    → create rt a p trace db ≡ ok ((c, new), db')
    → create rt b q trace' db' ≡ ok ((c', new'), db'')
    → (c'.row.id ≡ c.row.id) × (new' ≡ false) × (db'' ≡ db')
create_direct_twice rt a b p q trace trace' db db' db'' c c' new new' direct direct' project pm qm e
      e' =
    (Post-ok _ _ _ _ (create-IsPaired rt b q trace' db' direct') e').again c.row.id
      (rw (← project, qm, sorted_pair b.user_id a.user_id, ← pm) first)
  where
    first : HasPair a.project_id (participants a p) c.row.id db'
    first = (Post-ok _ _ _ _ (create-IsPaired rt a p trace db direct) e).paired
