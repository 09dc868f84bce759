-- ===== src/Lib.antt =====
-- Claude Persist runs Claude Code sessions in a daemon, so that they outlive the window that
-- shows them. A session (`DaemonSession` in daemon/src/session.ts) records chat events in a
-- transcript, feeds messages to a query of the Claude SDK, handles what the query says, and holds
-- a turn that was refused until it can be sent again. The transcript is a log on disk
-- (daemon/src/logStore.ts) with the newest events in memory. When an account is refused by a plan
-- limit, daemon/src/rotation.ts chooses the account to use, and daemon/src/limits.ts the instant
-- of the retry.
--
-- Prelude has the shared tests and list lemmas, JsMap the insertion-ordered `Map` of JavaScript,
-- Ids sets of numbers. LogStore models daemon/src/logStore.ts: `read_lines`,
-- `load_tail_and_count` and `read_range` over files that are lists of bytes in pieces, and below
-- it LogStore.Disk the generations and the rotation of a session's files. Rotation models
-- daemon/src/rotation.ts, Switching the callbacks of daemon/src/main.ts that use it, Clients the
-- connections of daemon/src/main.ts with `broadcast` and what they are attached to, Limits
-- daemon/src/limits.ts, StatusPage daemon/src/statusPage.ts, Agents daemon/src/agents.ts, and
-- Coalesce daemon/src/coalesce.ts, which gathers the streamed text for a client: `send`, `tick`
-- and `close_sender` (`close`) with the timer as a field, and Coalesce.Shown what a chat shows of
-- the messages.
--
-- Titler models daemon/src/titler.ts and `maybeRetitle` of the session over Texts, the texts as
-- lists of code units: Titler.Names when a name is due and whether a tab takes it, Titler.Compose
-- the title of a tab (`compose_title`, `without_tag`), Titler.Clean the cleaning of an answer
-- (`clean_title`, `tidy_name`), Titler.Exchanges and Titler.Evidence what the namer is shown, and
-- Titler.Rename the looks of `maybeRetitle` at its metadata. Lock models daemon/src/lock.ts and,
-- in Lock.Claim, daemon/src/ownership.ts, Registry daemon/src/registry.ts with the calls of a
-- save one by one, TokenMeter daemon/src/tokenFlow.ts, PlanUsage daemon/src/usage.ts with the
-- record of daemon/src/accountUsage.ts, and LimitDisplay extension/src/rateLimits.ts, the limit
-- that the extension shows. DaemonClient models of extension/src/daemonClient.ts the order of
-- versions and, in DaemonClient.Verify, `verifyProtocol` with the loop of `connect`, which makes
-- forty attempts, and in DaemonClient.Requests the requests that wait for an answer and the lines
-- of the socket; NewerInstall models extension/src/newerInstall.ts over it.
--
-- Session models daemon/src/session.ts. Session.Event has the events of shared/src/protocol.ts,
-- Session.State the fields, Session.Queue the class `InputQueue`, and Session.Transcript the log
-- of a session: `append_persisted` is the end of `appendEvent`, `open_transcript` the
-- constructor, `events_since` and `events_before` the two replays. Session.Append is the whole of
-- `appendEvent` with `setStatus` and `busy`; Session.Parking `parkForLimit`,
-- `cancelPendingRetry`, `parkForRestart`, `parkForAccountSwitch` and the retry timer;
-- Session.Sending `sendMessage`, `ensureQuery`, `runPendingRetry` and the stall watchdog;
-- Session.Message and Session.Consume `handleSdkMessage` and `consume`; Session.Control the
-- requests of clients and the polls of the status page. Session.Restart the constructor and what
-- a restart of the daemon does; Session.Actions lists the entry points as the actions of a run,
-- and Session.Sound goes through all of them with two invariants.
--
-- A handler of the source runs without a pause, so it is a function from the state, the instant
-- and the replies of its callbacks to the new state; what happens behind an `await` is an action
-- of its own. Timers are fields that say whether, or when, they fire. A test in a handler is
-- often a Boolean argument of a helper by clauses, or `when`.
--
-- Reading a file is by fuel, the number of the bytes that are left, which a round makes fewer;
-- the search of the rotation makes one round for each account; taking the tags off a title and
-- printing a number are by fuel too, the length of the title and the number itself, since a tag
-- has two characters or more and a digit makes the number smaller. The loop on the buffer of a
-- socket has its length as fuel. All else is structural recursion. Numbers are unbounded: the
-- sources' are far below 2 ^ 53.
--
-- Not modelled: regular expressions (what they find in a text is an argument), `JSON.parse` and
-- `JSON.stringify` (a printer, a reader and a decoder, with the law that a printed text parses
-- back where it is needed), `toLowerCase` and `toUpperCase` (`lower` and `upper` are arguments),
-- `Date.parse`, the wording of notices and prompts, `log`, `pollUsage` and `stopAgent`, and the
-- daemon's accounts on disk, processes, login, push, gateway and uploads; nor the views of the
-- extension.
mod Prelude
pub mod JsMap
pub mod Ids
pub mod Clients
pub mod DaemonClient
pub mod NewerInstall
pub mod PlanUsage
pub mod LimitDisplay
pub mod Registry
pub mod TokenMeter
pub mod Lock
pub mod Texts
pub mod Titler
pub mod Coalesce
pub mod Rotation
pub mod LogStore
pub mod Limits
pub mod StatusPage
pub mod Agents
pub mod Switching
pub mod Session
