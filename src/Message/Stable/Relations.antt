-- ===== src/Message/Stable/Relations.antt =====
-- Reactions and pins keep what their statements keep.
use al_ur_messenger.Prelude.{
  ℕ, ◌≡◌, refl, Bool, true, false, ◌&&◌, Option, some, none, List, is_none, is_some,
}
use al_ur_messenger.Prelude.Table.{find}
use al_ur_messenger.Runtime.{Runtime}
use al_ur_messenger.Identity.{Actor}
use al_ur_messenger.Store.{Db, MessageRow, EventType, Flag, message_key}
use al_ur_messenger.Store.Query.{Gives, Gives->>=, row-Gives, check-Gives, step-Gives, pure-Gives}
use al_ur_messenger.Message.Scan.{message_row}
use al_ur_messenger.Message.Access.{relation_access, is_live}
use al_ur_messenger.Store.Tx.{
  Post, query->>=, check->>=, write->>=, bind->>=, commit-Post, refuse-Post,
}
use al_ur_messenger.Event.Log.{append-IsAppended}
use al_ur_messenger.Message.{Outside}
use al_ur_messenger.Message.Relations.{
  react, react_live, change_reaction, relation_result, set_pin, pin_live, change_pin, request_react,
  request_set_pin, insert_reaction, remove_reaction, insert_pin, remove_pin,
}
use al_ur_messenger.Message.Stable.{
  IsStable, IsAlive, found-IsAlive, bumped-IsRewrite, insert_reaction-keeps, remove_reaction-keeps,
  insert_pin-keeps, remove_pin-keeps,
}

absurd : {A : Type 0} → false ≡ true → A
absurd e = cc

relation_access-found :
    (a : Actor) (id : ℕ) (scope : Option ℕ) (flag : Flag) (pin : Bool) (db : Db)
    → Gives (λ r. message_row a.project_id id db ≡ some r) (relation_access a id scope flag pin db)
unfolding relation_access
relation_access-found a id scope flag pin db = row-Gives _ _ _ _ db λ r found.
    check-Gives _ _ _ db λ _.
      step-Gives _ _ _ db
        λ _ _. step-Gives _ _ _ db λ _ _. step-Gives _ _ _ db λ _ _. pure-Gives _ r db found

live_row-IsAlive :
    (rt : Runtime) (project id : ℕ) (r : MessageRow) (ms : List MessageRow)
    → find (message_key project id) ms ≡ some r
    → is_live rt r ≡ true
    → IsAlive project r.id ms
live_row-IsAlive rt project id r ms found live =
    found-IsAlive project id r ms found (undeleted r.deleted_at _ live)
  where
    undeleted : (d : Option ℕ) (b : Bool) → (is_none d && b) ≡ true → is_some d ≡ false
    undeleted none b h = refl
    undeleted (some t) b h = cc

module _ (P : Db → Type 0) (stable : IsStable P) (rt : Runtime) (o : Outside) (a : Actor) where
  relation_result-keeps :
      (r : MessageRow) (kind : EventType) (changed : Bool) (db : Db)
      → (changed ≡ true → IsAlive a.project_id r.id db.messages)
      → P db
      → Post (λ _ db'. P db') (relation_result rt o a r kind changed db)
  unfolding relation_result
  relation_result-keeps r kind false db alive h = query->>= _ _ _ db λ shown _. commit-Post _ _ db h
  relation_result-keeps r kind true db alive h = write->>= _ _ _ db (
      query->>= _ _ _ _ λ shown _.
        bind->>= _ _ _ _ (append-IsAppended rt a.project_id r.conversation_id _ _ _) λ e db' log.
          commit-Post _ _ db' (
            stable.appended rt _ _ _ db' e log
              (stable.rewritten a.project_id r.id _ db bumped-IsRewrite (alive refl) h)))

  change_reaction-keeps :
      (r : MessageRow) (emoji : ℕ) (add present : Bool) (db : Db)
      → IsAlive a.project_id r.id db.messages
      → P db
      → Post (λ _ db'. P db') (change_reaction rt o a r emoji add present db)
  unfolding change_reaction insert_reaction remove_reaction
  change_reaction-keeps r emoji true true db alive h =
      relation_result-keeps r EventType.reaction_created false db absurd h
  change_reaction-keeps r emoji false false db alive h =
      relation_result-keeps r EventType.reaction_deleted false db absurd h
  change_reaction-keeps r emoji true false db alive h = write->>= _ _ _ db (
      relation_result-keeps r _ true _ (λ _. alive)
        (insert_reaction-keeps P stable rt o a r emoji db h))
  change_reaction-keeps r emoji false true db alive h = write->>= _ _ _ db (
      relation_result-keeps r _ true _ (λ _. alive)
        (remove_reaction-keeps P stable rt o a r emoji db h))

  react_live-keeps :
      (r : MessageRow) (emoji : ℕ) (add live : Bool) (db : Db)
      → (live ≡ true → IsAlive a.project_id r.id db.messages)
      → P db
      → Post (λ _ db'. P db') (react_live rt o a r emoji add live db)
  unfolding react_live
  react_live-keeps r emoji add true db alive h = query->>= _ _ _ db λ _ permitted.
      query->>= _ _ _ db λ present _. change_reaction-keeps r emoji add present db (alive refl) h
  react_live-keeps r emoji true false db alive h = refuse-Post _ _ db
  react_live-keeps r emoji false false db alive h =
      relation_result-keeps r EventType.reaction_deleted false db absurd h

  pub react-keeps :
      (id : ℕ) (scope : Option ℕ) (value : ℕ) (add : Bool) (db : Db)
      → P db
      → Post (λ _ db'. P db') (react rt o a id scope value add db)
  unfolding react
  react-keeps id scope value add db h = query->>= _ _ _ db λ emoji _.
      Gives->>= _ _ _ db (relation_access-found a id scope _ false db) λ m found.
        react_live-keeps m emoji add _ db (live_row-IsAlive rt a.project_id id m db.messages found)
          h

  change_pin-keeps :
      (r : MessageRow) (add present : Bool) (db : Db)
      → IsAlive a.project_id r.id db.messages
      → P db
      → Post (λ _ db'. P db') (change_pin rt o a r add present db)
  unfolding change_pin insert_pin remove_pin
  change_pin-keeps r true true db alive h =
      relation_result-keeps r EventType.message_pinned false db absurd h
  change_pin-keeps r false false db alive h =
      relation_result-keeps r EventType.message_unpinned false db absurd h
  change_pin-keeps r true false db alive h =
      write->>= _ _ _ db
        (relation_result-keeps r _ true _ (λ _. alive) (insert_pin-keeps P stable rt o a r db h))
  change_pin-keeps r false true db alive h =
      write->>= _ _ _ db
        (relation_result-keeps r _ true _ (λ _. alive) (remove_pin-keeps P stable rt o a r db h))

  pin_live-keeps :
      (r : MessageRow) (add live : Bool) (db : Db)
      → (live ≡ true → IsAlive a.project_id r.id db.messages)
      → P db
      → Post (λ _ db'. P db') (pin_live rt o a r add live db)
  unfolding pin_live
  pin_live-keeps r add true db alive h = query->>= _ _ _ db λ _ permitted.
      query->>= _ _ _ db λ present _. change_pin-keeps r add present db (alive refl) h
  pin_live-keeps r true false db alive h = refuse-Post _ _ db
  pin_live-keeps r false false db alive h =
      relation_result-keeps r EventType.message_unpinned false db absurd h

  pub set_pin-keeps :
      (id : ℕ) (scope : Option ℕ) (add : Bool) (db : Db)
      → P db
      → Post (λ _ db'. P db') (set_pin rt o a id scope add db)
  unfolding set_pin
  set_pin-keeps id scope add db h =
      Gives->>= _ _ _ db (relation_access-found a id scope _ true db) λ m found.
        pin_live-keeps m add _ db (live_row-IsAlive rt a.project_id id m db.messages found) h

  pub request_react-keeps :
      (id : ℕ) (scope : Option ℕ) (value : ℕ) (add : Bool) (db : Db)
      → P db
      → Post (λ _ db'. P db') (request_react rt o a id scope value add db)
  unfolding request_react
  request_react-keeps id scope value add db h =
      check->>= _ _ _ db λ v. query->>= _ _ _ db λ emoji _. react-keeps id scope emoji add db h

  pub request_set_pin-keeps :
      (conversation id : ℕ) (add : Bool) (db : Db)
      → P db
      → Post (λ _ db'. P db') (request_set_pin rt o a conversation id add db)
  unfolding request_set_pin
  request_set_pin-keeps conversation id add db h =
      check->>= _ _ _ db λ v. set_pin-keeps id (some conversation) add db h
