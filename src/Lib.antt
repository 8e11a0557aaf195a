-- ===== src/Lib.antt =====
-- AlUrMessenger: the messenger's conversations, its changefeed and the ways in which events reach
-- clients.
--
-- The program is a Go service over PostgreSQL. HTTP and WebSocket handlers call services, which
-- check requests and call stores; a store runs one SQL transaction per operation. Every change of a
-- conversation appends an event, numbered in its conversation, to chat.conversation_events and to
-- chat.outbox_events in the same transaction. A worker publishes the outbox to Kafka; a router turns
-- Kafka records into Redis hints; a hint wakes the WebSocket sessions of a Project, which read the
-- events after their cursors from PostgreSQL, under the member's rights of the moment.
--
-- Files:
--   Prelude, Text, Result, Runtime  shared: numbers, lists, tables of rows, texts, errors, and what
--     comes from outside (clocks, github.com/google/uuid, net/url). Result has errorCode of
--     internal/realtime/connection.go.
--   Store  the rows of the tables (Store/Rows), transactions (Store/Tx) and reads (Store/Query). A
--     transaction is a function from tables to a result with new tables; an error leaves the tables
--     as they were, as the deferred Rollback does. Post and Gives are the rules for their chains.
--   Identity  internal/identity/identity.go: actors and profiles.
--   Event  internal/event/repository/postgres.go: Append. Event/Log says what a gapless log is.
--   Conversation  internal/conversation/conversation.go and membership.go: requests and their checks.
--     Conversation/Access, Audit, Commands: internal/conversation/repository/postgres.go, with
--     lockProject, lockUsers, get, audit, Create and Patch. Conversation/Membership, Members:
--     internal/conversation/repository/membership.go, with membershipTx, keepModerator, AddMembers,
--     PatchMember and RemoveMember. Conversation/Services: the services in front of both stores.
--   Recovery  internal/message/recovery.go and internal/message/repository/recovery.go: Receipt,
--     Replay (Replay for the page, Hydration for the messages that its events name) and Snapshot.
--   Message  internal/message/message.go and relations.go: commands and what a reader sees. Its
--     children model internal/message/repository: Scan (columns, scan), Access (activityAccess,
--     requireFeature, mutationAccess, relationAccess), Sending (Send), Source and Forwarding
--     (forward), Mutations (Edit, Delete), Relations (React, SetPin), Reading (Get, History, Search,
--     Pins), each with its service. Stable carries a property of the tables through every command;
--     Sequence and Upkeep fill it, and so does Journal, the specification of what the commands may do
--     to the messages.
--   Cryptography  message.Crypto, the interface to the keys of internal/cryptography/keys.go.
--   Policy  internal/policy/policy.go and internal/policy/repository/postgres.go: Update of a
--     Project's settings.
--   History  sequences of calls of these commands by any actors; History/Finality what an edit and a
--     deletion settle for them.
--   Outbox  internal/outbox/outbox.go: One, Batch and Run of the worker. Outbox/Router:
--     internal/outbox/router.go: Handle.
--   Realtime  internal/realtime/connection.go, hub.go and session.go: queues, the hub, the commands
--     of a session (Session/Commands), its replays (Session), its main loop (Loop) and its writer
--     (Writer). They take the services as records; Session/Recovered fills the one for Replay with
--     RecoveryService.Replay. Frames leave out the message that an event carries.
--   ApiDocs  internal/platform/apidocs: the handler and the script of the documentation page.
--   Tests  concrete inputs.
--
-- Identifiers are numbers (Runtime says how), and so are times, in seconds. Row and advisory locks
-- are not modelled: transactions run one after another, which is what the locks are for. Whether
-- the broker, Redis, the authentication service and the commits succeed are inputs. Nothing runs on
-- fuel: all loops are over lists that are given.
--
-- Not modelled: AES-GCM and HMAC, uploads and retention, presence in Redis, the commands of
-- moderation (its check of a text is modelled), admission, authentication and configuration. encoding/json, the keys, the words of a text and the
-- table of emoji are arguments (Message.Outside). Transports, start-up, migrations and
-- generated or vendored files are left out as they hold no logic of their own.
pub mod Prelude
pub mod Text
pub mod Result
pub mod Runtime
pub mod Identity
pub mod Message
pub mod Cryptography
pub mod Store
pub mod Event
pub mod Conversation
pub mod History
pub mod Tests
pub mod Recovery
pub mod Outbox
pub mod Realtime
pub mod ApiDocs
pub mod Policy
