-- ===== src/Tests/Setting.antt =====
-- A handler that tracks a card and a chat, and a message for the card.
use contextmatrix_runner.Prelude.{◌≡◌, refl, true, false, none, some, [], Text, bytes}
use contextmatrix_runner.Tests.Tracking.{two}
use contextmatrix_runner.Webhook.Payload.{MessagePayload}
use contextmatrix_runner.Webhook.ReplayCache.{new_replay_cache}
use contextmatrix_runner.Webhook.DedupCache.{new_dedup_cache}
use contextmatrix_runner.Webhook.Handler.{Handler, is_draining}
use contextmatrix_runner.Webhook.Handler.Message
use contextmatrix_runner.Webhook.Handler.Message.{
  handle_message, serve_message, cached_ack, deliver, is_tracked, write_turn, acknowledge,
  store_ack, build_user_message, is_chat,
}

-- A handler that tracks a card with an open stdin and a chat.
abbrev pub handler : Handler
handler = record {
  manager = record { tracker = two; calls = [] };
  broadcaster = some [];
  has_cm_client = true;
  mcp_url = bytes "http://cm/mcp";
  max_concurrent = 3;
  webhook_replay_skew = 0;
  replay_cache = some (new_replay_cache 600 100);
  message_dedup = some (new_dedup_cache 600 100);
  health = some (record { preflight_passed = true; draining = false });
}

pub serves : is_draining handler ≡ false
unfolding is_draining
serves = refl

abbrev pub turn : MessagePayload
turn = record {
  session_id = [];
  card_id = bytes "A-1";
  project = bytes "proj";
  content = bytes "hello";
  message_id = bytes "m1";
}

abbrev pub ack_body : Text
ack_body = bytes "{\"ok\":true}"

abbrev pub world : Message.World
world = record {
  marshal = λ c. some c;
  marshal_ack = λ id. some ack_body;
  between = λ t. t;
  written = none;
  now = 10;
}
