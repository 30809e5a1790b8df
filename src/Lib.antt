-- ===== src/Lib.antt =====
-- A model of the core of NiuMaNotifier and the theorems about it. NiuMaNotifier collects what coding
-- tools such as Codex and Claude Code do, from hooks, relays and log watchers, and shows the user
-- which session waits, runs, failed or is done; an approval that a tool asks for can be decided in
-- it.
--
-- The parts. A hook, a relay or a watcher turns what a tool does into events (models.rs). Between
-- a hook and a watcher that see the same approval the arbiter decides who announces it
-- (approval_arbitration.rs). The state mutation service (state_mutation.rs) gives the events to
-- the store (store.rs), which drops the ones that it knows, applies the others to the runs, the
-- attention items and the latest activity (store/transitions.rs), and keeps a cache of public
-- events; the service then publishes the applied events on the bus (runtime_event.rs). The store
-- also holds the approval requests (approval.rs) and the states of the plugins
-- (plugin/runtime_state.rs), which the user switches on and off (plugin/enablement.rs). The main
-- state service (main_state.rs, event_display.rs) reads from the store the one status that is
-- shown, while some tool is listened to (listener_config.rs).
--
-- The API stands around these. Its approval handlers (handlers/approval.rs) take requests from hooks
-- and relays, put them before the arbiter and into the store, settle them for the user, and append
-- the events of both; they also settle what a watcher sees to go on, and a watchdog
-- (approval_proxy_watchdog.rs) gives back the requests whose hook is lost. The registry of tool
-- sessions (tool_sessions.rs) keeps what the providers of a tool report, lists and groups it and
-- adds the states of the runs from the store; pending_action.rs looks in the store for what a client
-- may still answer in a session.
--
-- The files. The sources of the first part are under crates/niuma-core/src, those of the second
-- under crates/niuma-api/src.
--   Prelude           notation, lists, text, the maps of the standard library
--   Models            models.rs: ToolKind is its alias ToolId; the record of each struct, a data type for each
--                     enum; `from_event` and the like carry the name of their type
--   Transitions       store/transitions.rs, a function of the same name for each function, and one for
--                     each arm of the `match` of `apply_attention_transition`
--   Approval          approval.rs; the part of each function after `find_request_mut` is a function on
--                     one request, such as `decide_request` of `decide`
--   Plugin            plugin/runtime_state.rs, manifest.rs and config.rs in Manifest, validation.rs and
--                     enablement.rs in Enablement
--   Remote            remote/connection_policy.rs
--   Store             store.rs, the operations in State, Appending, Sweeping, Reading and Requests below
--                     it: `RuntimeState` is what the lock of `NiumaStore` guards, and a
--                     method is a function from it to the one after and the result
--   ListenerConfig    listener_config.rs
--   EventBus          runtime_event.rs
--   Arbiter           approval_arbitration.rs, the fingerprint and its hash in Fingerprint below it
--   StateMutation     state_mutation.rs: the store, the saved configuration and the bus together
--   EventDisplay      event_display.rs
--   MainState         main_state.rs, the details that are shown in Detail below it
--   ToolSession       tool_session.rs of crates/niuma-core/src
--   Sessions          tool_sessions.rs: the registry, with what is read off a session in Item, the
--                     merged control in Channels, the summaries in Summary, the groups in Groups and
--                     the queries and snapshots in Queries below it; a `sort_by` closure is a
--                     comparator such as `session_order`
--   PendingAction     pending_action.rs, what its actions are made of in Parts below it
--   ApprovalApi       handlers/approval.rs: answers and checks in Answer, events and fingerprints in
--                     Events, the handlers in Requests and Decisions, what watchers and the watchdog
--                     do in Watchers. A handler is a function from the state before and the
--                     outcome of parsing its body to the state after and the response
--   Witnesses         the theorems at concrete inputs
-- The other files of a folder hold the theorems about the file beside it.
--
-- Representation. A time is the nanoseconds since the epoch and the current time is an argument.
-- The code compares a signed difference of two times with a limit; the model adds the limit to the
-- earlier time instead. The version of the bus is a 64-bit counter with its wrap-around. A map is
-- an association list; no result depends on the order of a hash map, and where the program makes
-- two maps of the same entries, as for the two kinds of session groups, they are compared up to
-- order. Loops are structural recursion over their list; only the decimal output of a number takes
-- fuel, one more than the number, and `decimal_digits_fuel` shows that more changes nothing, and
-- the hexadecimal output of a 64-bit hash, which has 16 digits at most. A stable sort is an
-- insertion sort, and `max_by` takes the last of the greatest. A panic of the grouping, which
-- reads the first of its raw sessions, is `none`. What is not read here is an argument: JSON
-- values and the objects made of texts, the providers of session details, the registry file and
-- the control socket of a relay. A task that sleeps is a step of its own, and a handler that asks
-- the clock several times has an argument for each.
--
-- Not modelled: a poisoned lock; SQLite (notification_store.rs); the files of the configuration,
-- of which only the saved switches and the outcome of a write are kept; serialisation; log lines;
-- the asynchronous watcher of the main state and lagging receivers of the bus; the routes and the
-- streams of the API, the hooks, the watchers, the plugins' processes, remote access and the user
-- interfaces.
pub mod Prelude
pub mod Models
pub mod Transitions
pub mod Approval
pub mod Plugin
pub mod Store
pub mod ListenerConfig
pub mod EventBus
pub mod Arbiter
pub mod StateMutation
pub mod EventDisplay
pub mod MainState
pub mod ToolSession
pub mod Sessions
pub mod PendingAction
pub mod ApprovalApi
pub mod Remote
pub mod Witnesses
