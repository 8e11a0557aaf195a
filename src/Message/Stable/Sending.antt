-- ===== src/Message/Stable/Sending.antt =====
-- Sends keep what their statements keep.
use al_ur_messenger.Prelude.{ℕ, refl, Bool, false, ◌≡◌, ◌==◌, Option, some, none, List}
use al_ur_messenger.Text.{Text}
use al_ur_messenger.Result.{or_fail-eq-ok}
use al_ur_messenger.Runtime.{Runtime}
use al_ur_messenger.Identity.{Actor}
use al_ur_messenger.Store.{Payload, Db, MessageRow, SendRow}
use al_ur_messenger.Store.Tx.{
  Tx, write, Post, query->>=, check->>=, draw->>=, write->>=, bind->>=, commit-Post,
}
use al_ur_messenger.Event.{conversation_row}
use al_ur_messenger.Event.Log.{append-IsAppended}
use al_ur_messenger.Message.{Canonical, canonical, Send, Outside}
use al_ur_messenger.Message.Sending.{
  store_sent, is_image, first_id, attach, send, send_new, send_again, send_or_again, store_message,
  request_send, insert_message, check_row,
}
use al_ur_messenger.Message.Stored.{row_fits}
use al_ur_messenger.Prelude.Table.{exists}
use al_ur_messenger.Conversation.Commands.{update_conversation}
use al_ur_messenger.Message.Stable.{
  IsStable, with_last-IsTouch, attach-keeps, drawn-keeps, insert_search-keeps, insert_send-keeps,
  drop_send-keeps,
}

module _ (P : Db → Type 0) (stable : IsStable P) (rt : Runtime) (o : Outside) (a : Actor) where
  pub store_message-keeps :
      (client : ℕ) (c : Canonical) (link : Tx (Unit {0})) (payload : Payload)
      (index : Text × List Text) (m : MessageRow) (db : Db)
      → ((db : Db) → P db → Post (λ _ db'. P db') (link db))
      → (exists (λ x. x.id == m.id) db.messages ≡ false → P (insert_message m db))
      → Post (λ _ db'. P db') (store_message rt o a client c link payload index m db)
  unfolding store_message check_row
  store_message-keeps client c link payload index m db linked h = query->>= _ _ _ db λ _ fits.
      write->>= _ _ _ _ (
        bind->>= _ _ _ _ (linked _ (h (row_fits _ _ _ fits).0)) λ _ db₁ h₁. write->>= _ _ _ _ (
          write->>= _ _ _ _ (
            query->>= _ _ _ _ λ f print. write->>= _ _ _ _ (
              bind->>= _ _ _ _ (append-IsAppended rt a.project_id m.conversation_id _ _ _)
                λ e db' log. query->>= _ _ _ db' λ shown seen. commit-Post _ _ db' (
                  stable.appended rt _ _ _ db' e log (
                    insert_send-keeps P stable rt o a _ _ (
                      insert_search-keeps P stable rt o a _ _ (
                        stable.touched a.project_id m.conversation_id _ _ (with_last-IsTouch _)
                          h₁))))))))

  attach-Post :
      (b : Bool) (id : ℕ) (m : MessageRow) (db : Db)
      → P db
      → Post (λ _ db'. P db') (write (attach b id m) db)
  unfolding write
  attach-Post b id m db h = Post.committed (attach-keeps P stable rt o a b id m db h)

  store_sent-keeps :
      (conversation : ℕ) (p : Send) (index : Text × List Text) (m : MessageRow) (db : Db)
      → (exists (λ x. x.id == m.id) db.messages ≡ false → P (insert_message m db))
      → Post (λ _ db'. P db') (store_sent rt o a conversation p index m db)
  unfolding store_sent
  store_sent-keeps conversation p index m db h =
      store_message-keeps _ _ _ _ index m db
        (attach-Post (is_image p.type) (first_id p.attachment_ids) m) h

  send_new-keeps :
      (conversation : ℕ) (p : Send) (index : Text × List Text) (retention : ℕ) (db : Db)
      → P db
      → Post (λ _ db'. P db') (send_new rt o a conversation p index retention db)
  unfolding send_new update_conversation
  send_new-keeps conversation p index retention db h = write->>= _ _ _ db (
      query->>= _ _ _ _ λ _ moderated. query->>= _ _ _ _ λ _ attachable.
        query->>= _ _ _ _ λ _ answerable. draw->>= _ rt _ _ (
          query->>= _ _ _ _ λ sealed _.
            query->>= _ (conversation_row a.project_id conversation) _ _ λ c found.
              write->>= _ _ _ _ (
                store_sent-keeps conversation p index _ _ λ fresh.
                  (stable.inserted rt _ c _ (or_fail-eq-ok _ _ _ found) refl refl refl fresh (
                    drawn-keeps P stable rt o a _
                      (drop_send-keeps P stable rt o a p.client_id db h))))))

  pub send_again-keeps :
      (c : Canonical) (s : SendRow) (db : Db)
      → P db
      → Post (λ _ db'. P db') (send_again rt o a c s db)
  unfolding send_again
  send_again-keeps c s db h =
      query->>= _ _ _ db
        λ f _. check->>= _ _ _ db λ same. query->>= _ _ _ db λ shown _. commit-Post _ _ db h

  send_or_again-keeps :
      (conversation : ℕ) (p : Send) (index : Text × List Text) (retention : ℕ) (x : Option SendRow)
      (db : Db)
      → P db
      → Post (λ _ db'. P db') (send_or_again rt o a conversation p index retention x db)
  unfolding send_or_again
  send_or_again-keeps conversation p index retention none db h =
      send_new-keeps conversation p index retention db h
  send_or_again-keeps conversation p index retention (some s) db h =
      send_again-keeps (canonical conversation p) s db h

  pub send-keeps :
      (conversation : ℕ) (p : Send) (system : Bool) (db : Db)
      → P db
      → Post (λ _ db'. P db') (send rt o a conversation p system db)
  unfolding send
  send-keeps conversation p system db h = check->>= _ _ _ db λ valid. query->>= _ _ _ db λ index _.
      query->>= _ _ _ db λ retention _. query->>= _ _ _ db λ _ replies.
        query->>= _ _ _ db λ _ images.
          query->>= _ _ _ db
            λ existing _. send_or_again-keeps conversation p index retention existing db h

  pub request_send-keeps :
      (conversation : ℕ) (p : Send) (system : Bool) (db : Db)
      → P db
      → Post (λ _ db'. P db') (request_send rt o a conversation p system db)
  unfolding request_send
  request_send-keeps conversation p system db h =
      check->>= _ _ _ db λ v. check->>= _ _ _ db λ w. send-keeps conversation p system db h
