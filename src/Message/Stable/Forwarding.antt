-- ===== src/Message/Stable/Forwarding.antt =====
-- Forwards, and sends of any command, keep what their statements keep.
use al_ur_messenger.Prelude.{◌≡◌, ◌==◌, ℕ, refl, Bool, true, false, Option, some, none}
use al_ur_messenger.Result.{or_fail-eq-ok}
use al_ur_messenger.Runtime.{Runtime}
use al_ur_messenger.Identity.{Actor}
use al_ur_messenger.Store.{Db, MessageRow, SendRow, AttachmentRow}
use al_ur_messenger.Store.Tx.{Post, query->>=, check->>=, draw->>=, write->>=, commit-Post}
use al_ur_messenger.Event.{conversation_row}
use al_ur_messenger.Message.{Command, plain, forwarding, Message, Content, Canonical, Outside}
use al_ur_messenger.Message.Forwarding.{
  share, store_forward, attach_copy, forward, forward_new, forward_or_again, send_command,
  request_command,
}
use al_ur_messenger.Message.Source.{is_image_message}
use al_ur_messenger.Message.Sending.{insert_message}
use al_ur_messenger.Text.{Text}
use al_ur_messenger.Prelude.{List}
use al_ur_messenger.Message.Stable.{IsStable, same_read, drawn-keeps, drop_send-keeps}
use al_ur_messenger.Prelude.Table.{exists}
use al_ur_messenger.Conversation.Commands.{update_conversation}
use al_ur_messenger.Message.Stable.Sending.{
  store_message-keeps, send_again-keeps, send-keeps, request_send-keeps,
}

module _ (P : Db → Type 0) (stable : IsStable P) (rt : Runtime) (o : Outside) (a : Actor) where
  attach_copy-keeps :
      (id : ℕ) (m : MessageRow) (r : AttachmentRow) (db : Db)
      → P db
      → P (attach_copy rt a id m r db)
  unfolding attach_copy
  attach_copy-keeps id m r db h = stable.unread db _ (same_read db _ refl refl refl refl refl) h

  share-keeps :
      (source : ℕ) (m : MessageRow) (image : Bool) (db : Db)
      → P db
      → Post (λ _ db'. P db') (share rt a source m image db)
  unfolding share
  share-keeps source m false db h = commit-Post _ tt db h
  share-keeps source m true db h = draw->>= _ rt _ db (
      query->>= _ _ _ _ λ r _.
        write->>= _ _ _ _
          (commit-Post _ tt _ (attach_copy-keeps _ m r _ (drawn-keeps P stable rt o a db h))))

  store_forward-keeps :
      (client : ℕ) (c : Canonical) (source : Message) (index : Text × List Text) (m : MessageRow)
      (db : Db)
      → (exists (λ x. x.id == m.id) db.messages ≡ false → P (insert_message m db))
      → Post (λ _ db'. P db') (store_forward rt o a client c source index m db)
  unfolding store_forward
  store_forward-keeps client c source index m db h =
      store_message-keeps P stable rt o a client c _ _ index m db
        (share-keeps source.id m (is_image_message source.type)) h

  forward_new-keeps :
      (target client : ℕ) (c : Canonical) (retention : ℕ) (source : Message) (content : Content)
      (db : Db)
      → P db
      → Post (λ _ db'. P db') (forward_new rt o a target client c retention source content db)
  unfolding forward_new update_conversation
  forward_new-keeps target client c retention source content db h =
      query->>= _ _ _ db λ _ moderated. query->>= _ _ _ db λ original _.
        query->>= _ _ _ db λ index _. draw->>= _ rt _ db (
          query->>= _ _ _ _ λ sealed _.
            query->>= _ (conversation_row a.project_id target) _ _ λ row found. write->>= _ _ _ _ (
              store_forward-keeps client c source index _ _ λ fresh.
                (stable.inserted rt _ row _ (or_fail-eq-ok _ _ _ found) refl refl refl fresh
                  (drawn-keeps P stable rt o a db h))))

  forward_or_again-keeps :
      (target client source retention : ℕ) (x : Option SendRow) (db : Db)
      → P db
      → Post (λ _ db'. P db') (forward_or_again rt o a target client source retention x db)
  unfolding forward_or_again
  forward_or_again-keeps target client source retention (some s) db h =
      send_again-keeps P stable rt o a _ s db h
  forward_or_again-keeps target client source retention none db h = write->>= _ _ _ db (
      query->>= _ _ _ _ λ (m, content) _.
        forward_new-keeps target client _ retention m content _
          (drop_send-keeps P stable rt o a client db h))

  forward-keeps :
      (target client source : ℕ) (db : Db)
      → P db
      → Post (λ _ db'. P db') (forward rt o a target client source db)
  unfolding forward
  forward-keeps target client source db h = query->>= _ _ _ db λ retention _.
      query->>= _ _ _ db λ _ _.
        query->>= _ _ _ db λ x _. forward_or_again-keeps target client source retention x db h

  pub send_command-keeps :
      (conversation : ℕ) (p : Command) (system : Bool) (db : Db)
      → P db
      → Post (λ _ db'. P db') (send_command rt o a conversation p system db)
  unfolding send_command
  send_command-keeps conversation (plain p) system db h =
      send-keeps P stable rt o a conversation p system db h
  send_command-keeps conversation (forwarding mixed client source) system db h =
      check->>= _ _ _ db λ v. forward-keeps conversation client source db h

  pub request_command-keeps :
      (conversation : ℕ) (p : Command) (system : Bool) (db : Db)
      → P db
      → Post (λ _ db'. P db') (request_command rt o a conversation p system db)
  unfolding request_command
  request_command-keeps conversation (plain p) system db h =
      request_send-keeps P stable rt o a conversation p system db h
  request_command-keeps conversation (forwarding mixed client source) system db h =
      check->>= _ _ _ db λ v.
        check->>= _ _ _ db
          λ w. send_command-keeps conversation (forwarding mixed client source) system db h
