-- ===== src/Lib.antt =====
-- contextmatrix-runner: the core of the webhook service that starts and steers agent containers.
--
-- ContextMatrix sends signed requests to the runner. The middleware checks a request's signature and
-- rejects replays (the replay cache). A handler then decodes and validates the payload, asks the dedup
-- cache whether a message was served already, and works on the tracker, the map of running containers
-- with the stdin of the interactive ones, which it shares with the container manager. A worker's output
-- goes line by line through the log parser, which redacts its texts, to the broadcaster,
-- which fans it out to the readers of /logs. The callback client reports back to ContextMatrix. At
-- startup the configuration is checked, and the refresher keeps the file of secrets up to date.
--
-- Files and code:
--   Prelude             numbers, Boolean tests, lists, Go strings as bytes, maps as association lists
--   Tracker             internal/tracker/tracker.go: the bodies that a method for cards and its twin
--                       for chats share, by the map's key; each part under one lock is a function
--   Tracker/Methods     the methods by their names (AddIfUnderLimit is `add_if_under_limit`, ...)
--   Tracker/...         Limit, Keys, Stdin, Interleaving: their properties
--   Webhook/TimedStore  the list with an index that both caches are built on
--   Webhook/ReplayCache, Webhook/DedupCache
--                       internal/webhook/replay_cache.go and message_dedup_cache.go, with properties
--   Webhook/Payload, Webhook/Charset, Webhook/Validate
--                       internal/webhook/types.go and validate.go, with properties
--   Webhook/Handler     internal/webhook/handler.go, chat.go and health.go: Auth is `hmacAuth`, Message
--                       `handleMessage` with internal/streammsg/user.go, Cards /trigger, /kill,
--                       /stop-all, /health and /readyz, Session /promote and /end-session, Chats
--                       /chat/start and /chat/end
--   Webhook/Retries, Echoes, Replayed, Admission, Kills, StopAll, Sessions, Endings, Rollback
--                       the properties of the handlers (Rollback/Steps: the tracker during /chat/start)
--   Container           internal/container/manager.go: Kill, KillChat and AttachChatStdin
--   Container/Secrets   internal/container/secrets_refresher.go: the file of secrets as a shell reads it
--                       (Shell), its atomic write (Atomic), the loop's sleeps (Pace), and what a
--                       checked configuration gives (Startup)
--   Container/Health    internal/container/health_monitor.go
--   Container/Orphans, Container/Idle, Container/Wait
--                       internal/container/manager.go: CleanupOrphans, ForceRemoveByLabels,
--                       runIdleWatchdog, and waitAndCleanup with its handlers
--   Container/DnsCache  internal/container/dns_cache.go, with Sound and Warm for its properties
--   Config              internal/config/config.go: ApplyDefaults; Checks is `Validate`, Pinned and
--                       Accepted say what it accepts; and internal/secretenv
--   Broadcast           internal/logbroadcast/broadcaster.go: Truncation, Rounds and Fanout for one
--                       `Publish`, Steps for the sections in any order with Once and Streams for what
--                       holds in every order, Moves for the atomic steps by themselves with Drops
--   LogParser           internal/logparser: Line is `ReadBoundedLine`, Redactor the literal secrets,
--                       ToolCall the summaries, Stream the lines and the loop
--   Callback            internal/callback/client.go: Retry, Verify and Fallback have the properties
--   Tests               runs on concrete data
--
-- How the code is read. A method is a function from the state to the state and its result; what a
-- mutex guards is one such function, and Tracker/Interleaving lets these run in any order. Calls of
-- the outside (a writer, a cancel function, the manager's Docker side) are noted in a list, the
-- latest first, and what they return is an argument. A handler's `between` is whatever other
-- requests do to the tracker between its look at it and its use of it. In /chat/start `leaves` tells
-- where the goroutine of WaitAndCleanupChat, or a /chat/end, removes the chat. Times are numbers of
-- one unit, bytes are numbers, and Go's durations are not bounded. strings.ToLower lowers ASCII
-- letters. Go's int is not bounded either: the counters that occur are lengths of lists.
--
-- Parameters: url.Parse, protocol.VerifySignatureWithTimestamp, protocol's signing, encoding/json,
-- time.ParseDuration, os.Stat, strings.TrimSpace, fmt's numbers and durations, and Go's rune
-- conversions are functions of which nothing is assumed. Of the static patterns of `Redact` one
-- theorem assumes that they do not bring a text into a string that did not contain it. The decoded
-- payload is an argument, none where the JSON does not decode; so is the answer of each HTTP
-- request.
--
-- Fuel: the loops that evict and sweep run on the length of the list, which each round shortens; the
-- digits of a number run on its successor; the loops of the log parser run on the successor of the
-- input's length, of which each round but the last takes a byte at least; the retry loop runs on its
-- number of rounds. No other loop needs fuel.
--
-- Integers: the broadcaster's drop counter wraps at 2^64 as its uint64 does. A configuration's integers
-- have signs. Token counts are natural numbers.
--
-- Not modelled: logging and metrics, the /logs stream and the /containers listing, the timeouts of
-- writes and closes, the rest of the manager, loading of YAML and environment overrides, and startup
-- and shutdown in main.
pub mod Prelude
pub mod Broadcast
pub mod LogParser
pub mod Tracker
pub mod Callback
pub mod Config
pub mod Container
pub mod Webhook
pub mod Tests
