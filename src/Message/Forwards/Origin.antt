-- ===== src/Message/Forwards/Origin.antt =====
-- What a forward has read of its source.
use al_ur_messenger.Prelude.{ℕ, ◌≡◌, refl, true, Option, some, none, arith}
use al_ur_messenger.Store.Query.{
  Gives, given, refused, row-Gives, step-Gives, bind-Gives, check-Gives, pure-Gives,
}
use al_ur_messenger.Store.{UserRow}
use al_ur_messenger.Prelude.Table.{keep_if-eq-some}
use al_ur_messenger.Result.{not_found, no_rows, err}
use al_ur_messenger.Message.{Forward}
use al_ur_messenger.Message.Access.{is_live}
use al_ur_messenger.Message.Source.{content_of, can_forward}
use al_ur_messenger.Message.Scan.Facts.{IsShown, scan-IsShown}
use al_ur_messenger.Result.{ok}
use al_ur_messenger.Runtime.{Runtime}
use al_ur_messenger.Identity.{Actor}
use al_ur_messenger.Store.{Db, MessageRow}
use al_ur_messenger.Message.{Message, Content, SenderSnapshot, Outside}
use al_ur_messenger.Message.Scan.{message_row}
use al_ur_messenger.Message.Source.{read_source, original_sender}
use al_ur_messenger.Recovery.Access.{read_access}

-- What a forward takes: a live message that the actor may read, of a type that goes on, with its
-- content.
pub record IsReadable (rt : Runtime) (o : Outside) (a : Actor) (id : ℕ) (db : Db) (m : Message)
    (c : Content) : Type 0 where
  pub row : MessageRow
  pub found : message_row a.project_id id db ≡ some row
  pub live : is_live rt row ≡ true
  pub allowed : read_access a row.conversation_id db ≡ ok tt
  pub shown : IsShown rt o a.project_id row db m
  pub content : m.content ≡ some c
  pub goes_on : can_forward m.type ≡ true

-- A forward of a forward names the sender whom the first one named.
pub data IsAuthor (m : Message) (s : SenderSnapshot) : Type 0 where
  of_message : m.forward ≡ none → s.id ≡ m.sender_id → IsAuthor m s
  of_header : (f : Forward) → m.forward ≡ some f → s ≡ f.original_sender → IsAuthor m s

content_of-some : (m : Message) (c : Content) → content_of m ≡ ok c → m.content ≡ some c
content_of-some m c h = go m.content refl h
  where
    go :
        (x : Option Content)
        → m.content ≡ x
        → elim x [ none ↦ err not_found | some d ↦ ok d ] ≡ ok c
        → m.content ≡ some c
    go none e h = cc
    go (some d) e h = cc

pub read_source-IsReadable :
    (rt : Runtime) (o : Outside) (a : Actor) (id : ℕ) (db : Db)
    → Gives (λ x. IsReadable rt o a id db x.0 x.1) (read_source rt o a id db)
unfolding read_source
read_source-IsReadable rt o a id db = row-Gives _ _ _ _ db λ r found.
    step-Gives _ _ _ db λ _ allowed.
      bind-Gives _ _ _ db (scan-IsShown rt o a.project_id r db) λ m shown.
        step-Gives _ _ _ db λ c content. check-Gives _ _ _ db λ goes. step-Gives _ _ _ db λ _ _.
          check-Gives _ _ _ db λ one.
            let (there, live) = keep_if-eq-some _ _ r found in
            pure-Gives _ (m, c) db
              (record {
                row = r;
                found = there;
                live = live;
                allowed = allowed;
                shown = shown;
                content = content_of-some m c content;
                goes_on = ground arith;
              })

pub original_sender-IsAuthor :
    (project : ℕ) (m : Message) (db : Db) → Gives (IsAuthor m) (original_sender project m db)
unfolding original_sender
original_sender-IsAuthor project m db = go m.forward refl _
  where
    go :
        (x : Option Forward)
        → m.forward ≡ x
        → (y : Option UserRow)
        → Gives (IsAuthor m) (elim x [
          | some f ↦ ok f.original_sender
          | none ↦ elim y [
            | none ↦ err no_rows
            | some u ↦ ok (record { id = m.sender_id; display_name = u.display_name })
          ]
        ])
    go (some f) e y = given (of_header f e refl)
    go none e none = refused
    go none e (some u) = given (of_message e refl)
