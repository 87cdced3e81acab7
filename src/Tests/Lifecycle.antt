-- ===== src/Tests/Lifecycle.antt =====
-- internal/webhook/handler.go and chat.go at concrete data: the life of a container.
use contextmatrix_runner.Prelude.{
  ℕ, suc, ◌+◌, ◌≡◌, refl, ◌≢◌, ◌≤◌, ◌<◌, ◌↔◌, ◌⊎◌, inl, Bool, true, false, none, some, List, [],
  ◌∷◌, ◌++◌, bytes, length, if◌then◌else◌, arith,
}
use contextmatrix_runner.Prelude.Texts.{text_beq}
use contextmatrix_runner.Prelude.Dict.{lookup}
use contextmatrix_runner.Container.{force_removed, started, attach_chat_stdin}
use contextmatrix_runner.Tracker.{
  ContainerInfo, cancelled, note, stdin_closed, new, key, chat_key, capture_at, close_stdin_at,
  has_at, close_locked, add_under_limit_at,
}
use contextmatrix_runner.Tracker.Methods.{add_chat_if_under_limit, count, has, close_stdin}
use contextmatrix_runner.Tests.Checks.{parse, payload, payload_accepted}
use contextmatrix_runner.Tests.Tracking.{two, two-IsDict}
use contextmatrix_runner.Webhook.Payload.{CardPayload, StopAllPayload, ChatStartPayload, Payload}
use contextmatrix_runner.Webhook.Charset.{ident_re}
use contextmatrix_runner.Webhook.Validate.{contains_ctl_bytes, validate_ident, validate_card}
use contextmatrix_runner.Webhook.Validate.Dispatch.{validate_payload}
use contextmatrix_runner.Webhook.Handler.{
  Handler, Body, CardKillResult, is_draining, stdin_error_reply,
}
use contextmatrix_runner.Webhook.Handler.Cards.{config_of, handle_trigger, handle_kill, stop_all_of}
use contextmatrix_runner.Webhook.Handler.Message.{handle_message, deliver, build_user_message}
use contextmatrix_runner.Webhook.Handler.Session
use contextmatrix_runner.Webhook.Handler.Session.{handle_promote, handle_end_session, end_card}
use contextmatrix_runner.Webhook.Handler.Chats
use contextmatrix_runner.Webhook.Handler.Chats.{reserve_chat, attach_chat, finish_attach, meanwhile}
use contextmatrix_runner.Webhook.Admission.{handle_trigger_lem}
use contextmatrix_runner.Webhook.Sessions.{promote_fails_closed}
use contextmatrix_runner.Webhook.Endings.{session_over}
use contextmatrix_runner.Webhook.Echoes.{IsEchoed, handle_message-IsEchoed}
use contextmatrix_runner.Webhook.Kills.{handle_kill_lem}
use contextmatrix_runner.Webhook.StopAll.{AreStopped, selected, failures, stop_all_of_lem}
use contextmatrix_runner.Webhook.Rollback.{IsSettled, reserve_chat-IsSettled}
use contextmatrix_runner.Tests.Setting.{handler, turn, world}

abbrev target : CardPayload
target = record { card_id = bytes "A-1"; project = bytes "proj" }

abbrev manual : Session.World
manual = record {
  verified = some false;
  marshal = λ c. some c;
  between = λ t. t;
  written = none;
  closed = none;
  now = 10;
}

unconfirmed : manual.verified ≢ some true
unconfirmed e = ground (arith, e)

promote_fails_closed_example :
    ((handle_promote manual parse (some target) handler).0 ≡ handler)
    × ((handle_promote manual parse (some target) handler).1.status ≢ 202)
promote_fails_closed_example =
    promote_fails_closed manual parse (some target) handler (inl unconfirmed)

abbrev ended : Handler
ended = (handle_end_session manual parse (some target) handler).0

end_served : (handle_end_session manual parse (some target) handler).1.status ≡ 202
unfolding handle_end_session is_draining validate_payload validate_card validate_ident ident_re
    contains_ctl_bytes end_card has has_at key lookup text_beq close_stdin close_stdin_at capture_at
    close_locked
end_served = refl

session_over_example : deliver world turn ended ≡ (ended, stdin_error_reply stdin_closed)
unfolding build_user_message
session_over_example =
    session_over manual world parse target turn (bytes "hello" ++ 10 ∷ []) handler ended
      (inl (end_served, refl)) refl (refl, refl) refl refl

abbrev idle : Handler
idle = record handler { manager = record { tracker = new; calls = [] } }

handle_trigger_lem_example :
    let o = handle_trigger parse (some payload) 4 (bytes "id") 10 idle in
    let t = idle.manager.tracker in
    let t1 = o.0.manager.tracker in
    ((o.1.status ≡ 429)
      × (idle.max_concurrent ≤ count t)
      × (t1.containers ≡ t.containers)
      × (o.0.manager.calls ≡ idle.manager.calls))
    ⊎ ((o.1.status ≡ 409)
        × (count t < idle.max_concurrent)
        × (has payload.project payload.card_id t ≡ true)
        × (t1.containers ≡ t.containers)
        × (o.0.manager.calls ≡ idle.manager.calls))
    ⊎ ((o.1.status ≡ 202)
        × (has payload.project payload.card_id t ≡ false)
        × (has payload.project payload.card_id t1 ≡ true)
        × (count t1 ≡ suc (count t))
        × (count t1 ≤ idle.max_concurrent)
        × (o.0.manager.calls
            ≡ started (config_of payload idle.mcp_url (bytes "id")) ∷ idle.manager.calls))
unfolding is_draining
handle_trigger_lem_example =
    handle_trigger_lem parse payload 4 10 (bytes "id") idle refl payload_accepted

abbrev opening : ChatStartPayload
opening = record {
  session_id = bytes "s2";
  project = [];
  repo_url = [];
  model = [];
  mcp_api_key = [];
  resume = none;
  primer = bytes "hello";
}

abbrev start_world : Chats.World
start_world = record {
  created = some (bytes "c9");
  connected = none;
  between = λ t. t;
  written = none;
  closed = none;
  stops = λ id. false;
  leaves = λ n. false;
  marshal = λ c. some c;
  rehydration = λ s. s;
  cancel = 12;
  image = bytes "worker";
  now = 10;
}

reserve_chat-IsSettled_example :
    IsSettled start_world opening 3
      (bytes "c9")
      handler.manager
      (reserve_chat start_world opening 3 (bytes "c9") handler.manager)
reserve_chat-IsSettled_example =
    reserve_chat-IsSettled start_world opening 3 (bytes "c9") handler.manager two-IsDict

attach_failed : (reserve_chat start_world opening 3 (bytes "c9") handler.manager).1.status ≡ 502
unfolding reserve_chat add_chat_if_under_limit add_under_limit_at lookup text_beq chat_key
    attach_chat attach_chat_stdin finish_attach meanwhile
attach_failed = refl

abbrev everything : StopAllPayload
everything = record { project = [] }

stop_all_of_lem_example :
    (killed : ℕ) × (failed : ℕ) × (results : List CardKillResult) × (ok : Bool) × ((stop_all_of none
        (λ id. true)
        everything
        handler).1.body
      ≡ Body.stop_all ok (length (selected everything handler)) killed failed results)
    × AreStopped none
        (λ id. true)
        (selected everything handler)
        handler.manager
        results
        (stop_all_of none (λ id. true) everything handler).0.manager
    × (length results ≡ length (selected everything handler))
    × (killed + failed ≡ length (selected everything handler))
    × (failed ≡ failures results)
    × ((ok ≡ false) ↔ (0 < failed))
    × ((stop_all_of none (λ id. true) everything handler).1.status ≡ (if ok then 200 else 207))
stop_all_of_lem_example = stop_all_of_lem none (λ id. true) everything handler

kill_accepted : validate_payload parse (Payload.kill target) ≡ none
unfolding validate_payload validate_card validate_ident ident_re contains_ctl_bytes
kill_accepted = refl

handle_kill_lem_example :
    let o = handle_kill parse (some target) (some 0) (λ t. t) handler in
    ((lookup (key target.project target.card_id) two.containers ≡ none)
      × (o.0.manager.tracker ≡ two)
      × (o.0.manager.calls ≡ force_removed target.project target.card_id ∷ handler.manager.calls)
      × (o.1.status ≡ 200))
    ⊎ ((info : ContainerInfo) × (lookup (key target.project target.card_id) two.containers
          ≡ some info)
        × (o.0.manager.tracker ≡ record two { calls = note cancelled info.cancel two.calls })
        × (o.0.manager.calls ≡ handler.manager.calls)
        × (o.1.status ≡ 200))
handle_kill_lem_example = handle_kill_lem parse target (some 0) handler kill_accepted

handle_message-IsEchoed_example :
    IsEchoed world turn handler (handle_message world parse (some turn) handler).0
handle_message-IsEchoed_example = handle_message-IsEchoed world parse turn handler
