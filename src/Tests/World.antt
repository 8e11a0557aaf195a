-- ===== src/Tests/World.antt =====
-- A Project 1 with the humans 10, 11 and 12, the bot 13 and a banned human 14; canonical UUIDs are
-- their own numbers.
use al_ur_messenger.Prelude.{ℕ, ◌+◌, Bool, true, false, none, some, [], ◌∷◌, map, ◌==◌}
use al_ur_messenger.Prelude.Table.{find, order_by, select, exists, update_first, delete}
use al_ur_messenger.Text.{valid_string, is_trimmed, has_control, is_empty}
use al_ur_messenger.Runtime.{Runtime, valid_id}
use al_ur_messenger.Identity.{valid_avatar}
use al_ur_messenger.Store.Tx
use al_ur_messenger.Store.Query.{run_query}
use al_ur_messenger.Event.{append}
use al_ur_messenger.Conversation.Access.{get}
use al_ur_messenger.Conversation.Services.{
  request_create, request_patch, request_add, request_patch_member, request_remove,
}
use al_ur_messenger.Recovery.Receipts.{receipt, request_receipt}
use al_ur_messenger.Recovery.Access.{read_access}
use al_ur_messenger.Recovery.Replay.{replay_window}
use al_ur_messenger.Conversation.Audit.{audit}
use al_ur_messenger.Conversation.Members.{add_members, patch_member, remove_member}
use al_ur_messenger.Conversation.Commands.{create, patch}
use al_ur_messenger.Identity.{Actor, Kind}
use al_ur_messenger.Store.{Db, UserRow, ConversationRow, Flag}
use al_ur_messenger.Conversation.{Create, Trace}
use al_ur_messenger.Store.{ConversationType}

abbrev pub clock : ℕ → Runtime
clock t = record {
  parse = λ v. some v;
  format = λ v. v;
  new_id = λ k. 1000 + k;
  now = t;
  db_now = t;
  parse_url = λ u. none;
}

abbrev pub rt : Runtime
rt = clock 500

abbrev pub trace : Trace
trace = record { request_id = []; ip = [] }

abbrev user : ℕ → Kind → UserRow
user n k = record {
  project_id = 1;
  id = n;
  kind = k;
  admin = n == 10;
  display_name = [];
  banned_at = none;
}

abbrev pub all_flags : Flag → Bool
all_flags Flag.allow_webhooks = false
all_flags _ = true

abbrev pub empty_db : Db
empty_db = record {
  projects = record { id = 1; name = b'p' ∷ []; active = true; policy_version = 1 } ∷ [];
  settings =
      record {
        project_id = 1;
        flags = all_flags;
        max_upload_size = 1000;
        retention_days = 30;
        blacklist_enabled = false;
        version = 1;
      }
      ∷ [];
  users =
      user 10 Kind.human
      ∷ user 11 Kind.human
      ∷ user 12 Kind.human
      ∷ user 13 Kind.bot
      ∷ record {
        project_id = 1;
        id = 14;
        kind = Kind.human;
        admin = false;
        display_name = [];
        banned_at = some 400;
      }
      ∷ [];
  conversations = [];
  direct_pairs = [];
  members = [];
  audit_logs = [];
  events = [];
  outbox = [];
  messages = [];
  sends = [];
  search = [];
  reactions = [];
  pins = [];
  attachments = [];
  objects = [];
  attached = [];
  blacklist = [];
  drawn = 0;
}

abbrev pub human_actor : ℕ → Actor
human_actor n = record {
  project_id = 1;
  user_id = n;
  admin = false;
  is_banned = false;
  kind = Kind.human;
}

abbrev pub direct_with : ℕ → Create
direct_with n = record {
  type = some ConversationType.direct;
  member_ids = n ∷ [];
  title = [];
  avatar_url = [];
}

abbrev pub group_with : ℕ → Create
group_with n = record {
  type = some ConversationType.group;
  member_ids = n ∷ [];
  title = b'h' ∷ b'i' ∷ [];
  avatar_url = [];
}

abbrev pub with_five : ConversationRow → ConversationRow
with_five c = record c { message_sequence = 5 }

-- The same tables after five messages in every conversation.
abbrev pub at_five : Db → Db
at_five db = record db { conversations = map with_five db.conversations }

-- What a run in a test has to see through.
unfoldable pub running : Unit {0}
unfolding Tx.run run_query valid_id valid_string is_trimmed has_control valid_avatar is_empty find
    order_by select exists update_first delete audit append get create patch add_members
    patch_member remove_member receipt request_receipt read_access replay_window request_create
    request_patch request_add request_patch_member request_remove
running = tt
