-- ===== src/DaemonClient/Attempts.antt =====
-- extension/src/daemonClient.ts, `connect`: the attempts do not depend on one another.
use claude_persist.DaemonClient.{HelloResult, Staleness, staleness_of}
use claude_persist.DaemonClient.Verify.{
  Client, Listed, Kill, Verified, Attempt, connected, act_on, replace_daemon, verify_protocol,
  try_once, is_final, connect_loop, connect, connect_attempts, stop_idle_watch, defer_upgrade,
  drop_socket, open_socket, lost, Connecting, next_round,
}
use claude_persist.Texts.{Text}
use claude_persist.Prelude.{
  ℕ, zero, suc, ◌<◌, Bool, true, false, Option, none, some, List, ◌≡◌, refl, ap, Bool-cases, inl,
  inr, ◌∙◌, arith,
}

act_on-outcome :
    (expected : ℕ) (info : HelloResult) (sessions : Option (List Listed)) (kill : Kill) (now : ℕ)
    (c d : Client) (s : Option Staleness)
    → (act_on expected info sessions kill now c s).outcome
      ≡ (act_on expected info sessions kill now d s).outcome
unfolding act_on replace_daemon
act_on-outcome expected info sessions kill now c d none = refl
act_on-outcome expected info sessions kill now c d (some s) = ground arith

act_on-kept :
    (expected : ℕ) (info : HelloResult) (sessions : Option (List Listed)) (kill : Kill) (now : ℕ)
    (c : Client) (s : Option Staleness)
    → let r : Verified = act_on expected info sessions kill now c s in
      (r.client.version ≡ c.version) × (r.client.orphans ≡ c.orphans)
unfolding act_on replace_daemon stop_idle_watch defer_upgrade
act_on-kept expected info sessions kill now c none = (refl, refl)
act_on-kept expected info sessions kill now c (some s) = (ground arith, ground arith)

act_on-socket :
    (expected : ℕ) (info : HelloResult) (sessions : Option (List Listed)) (kill : Kill) (now : ℕ)
    (c : Client) (s : Option Staleness)
    → (act_on expected info sessions kill now c s).outcome ≡ connected
    → (act_on expected info sessions kill now c s).client.socket ≡ c.socket
unfolding act_on replace_daemon stop_idle_watch defer_upgrade
act_on-socket expected info sessions kill now c none h = refl
act_on-socket expected info sessions kill now c (some s) h = ground arith

-- Connected by the connection `n`, with the connections in `orphans` lost.
abbrev pub IsConnected : ℕ → List ℕ → Connecting → Type 0
IsConnected n orphans r =
    (r.outcome ≡ some connected) × (r.client.socket ≡ some n) × (r.client.orphans ≡ orphans)

next_round-connected :
    (n : ℕ) (orphans : List ℕ) (v : Verified) (alive : Bool) (rest : Connecting)
    → v.outcome ≡ connected
    → (v.client.socket ≡ some n) × (v.client.orphans ≡ orphans)
    → IsConnected n orphans (next_round v alive rest)
next_round-connected n orphans v alive rest h (k, o) = rw h (refl, k, o)

next_round-missed :
    (n : ℕ) (orphans : List ℕ) (v : Verified) (alive : Bool) (rest : Connecting)
    → is_final v.outcome ≡ false
    → IsConnected n orphans rest
    → IsConnected n orphans (next_round v alive rest)
next_round-missed n orphans v true rest f h = rw f h
next_round-missed n orphans v false rest f h = rw f h

module _ (exists : Text → Bool) (expected : ℕ) where
  abbrev try : Attempt → Client → Verified
  try a c = try_once exists expected a c

  abbrev verify : Attempt → Client → Verified
  verify a c = verify_protocol exists expected a.hello a.sessions a.kill a.now c

  abbrev judged : HelloResult → Option Text → Option Staleness
  judged info version = staleness_of exists info expected version

  verify-outcome :
      (hello : Option HelloResult) (sessions : Option (List Listed)) (kill : Kill) (now : ℕ)
      (c d : Client)
      → c.version ≡ d.version
      → (verify_protocol exists expected hello sessions kill now c).outcome
        ≡ (verify_protocol exists expected hello sessions kill now d).outcome
  unfolding verify_protocol
  verify-outcome none sessions kill now c d e = refl
  verify-outcome (some info) sessions kill now c d e =
      act_on-outcome expected info sessions kill now c d (judged info c.version)
      ∙ ap (λ v. (act_on expected info sessions kill now d (judged info v)).outcome) e

  verify-kept :
      (hello : Option HelloResult) (sessions : Option (List Listed)) (kill : Kill) (now : ℕ)
      (c : Client)
      → let r : Verified = verify_protocol exists expected hello sessions kill now c in
        (r.client.version ≡ c.version) × (r.client.orphans ≡ c.orphans)
  unfolding verify_protocol
  verify-kept none sessions kill now c = (refl, refl)
  verify-kept (some info) sessions kill now c =
      act_on-kept expected info sessions kill now c (judged info c.version)

  verify-socket :
      (hello : Option HelloResult) (sessions : Option (List Listed)) (kill : Kill) (now : ℕ)
      (c : Client)
      → (verify_protocol exists expected hello sessions kill now c).outcome ≡ connected
      → (verify_protocol exists expected hello sessions kill now c).client.socket ≡ c.socket
  unfolding verify_protocol
  verify-socket none sessions kill now c h = ground arith
  verify-socket (some info) sessions kill now c h =
      act_on-socket expected info sessions kill now c (judged info c.version) h

  try_once-outcome :
      (a : Attempt) (c d : Client) → c.version ≡ d.version → (try a c).outcome ≡ (try a d).outcome
  unfolding try_once
  try_once-outcome a c d e = elim (Bool-cases a.opens) [
    | inl t ↦ rw t (
        verify-outcome a.hello a.sessions a.kill a.now (open_socket a.connection c)
          (open_socket a.connection d) e)
    | inr f ↦ rw f refl
  ]

  try_once-kept :
      (a : Attempt) (c : Client)
      → c.socket ≡ none
      → ((try a c).client.version ≡ c.version) × ((try a c).client.orphans ≡ c.orphans)
  unfolding try_once
  try_once-kept a c free = elim (Bool-cases a.opens) [
    | inl t ↦
        let opened : Client = open_socket a.connection c in
        let none_lost : opened.orphans ≡ c.orphans = ap (λ o. lost o c.orphans) free in
        let (version, orphans) = verify-kept a.hello a.sessions a.kill a.now opened in
        rw t (version, orphans ∙ none_lost)
    | inr f ↦ rw f (refl, refl)
  ]

  try_once-socket :
      (a : Attempt) (c : Client)
      → (try a c).outcome ≡ connected
      → (try a c).client.socket ≡ some a.connection
  unfolding try_once
  try_once-socket a c h = elim (Bool-cases a.opens) [
    | inl t ↦
        let opened : Client = open_socket a.connection c in
        rw t (verify-socket a.hello a.sessions a.kill a.now opened (rw t at h))
    | inr f ↦ absurd (ground arith)
  ]

  loop-reaches :
      (left i : ℕ) (world : ℕ → Attempt) (lost_before : List ℕ) (c d : Client)
      → d.version ≡ c.version
      → d.socket ≡ none
      → d.orphans ≡ lost_before
      → i < left
      → ((j : ℕ) → j < i → is_final (try (world j) c).outcome ≡ false)
      → (try (world i) c).outcome ≡ connected
      → IsConnected (world i).connection lost_before (connect_loop exists expected left world d)
  unfolding connect_loop
  loop-reaches zero i world lost_before c d e free same l before h = absurd (omega arith)
  loop-reaches (suc left) zero world lost_before c d e free same l before h =
      let now : (try (world 0) d).outcome ≡ connected = try_once-outcome (world 0) d c e ∙ h in
      next_round-connected (world 0).connection lost_before (try (world 0) d) (world 0).alive
        (connect_loop exists expected left (λ j. world (suc j))
          (drop_socket (try (world 0) d).client))
        now (try_once-socket (world 0) d now, (try_once-kept (world 0) d free).1 ∙ same)
  loop-reaches (suc left) (suc i) world lost_before c d e free same l before h =
      let missed : is_final (try (world 0) d).outcome ≡ false =
        ap is_final (try_once-outcome (world 0) d c e) ∙ before 0 (omega arith) in
      let next : Client = drop_socket (try (world 0) d).client in
      let (version, orphans) = try_once-kept (world 0) d free in
      next_round-missed (world (suc i)).connection lost_before (try (world 0) d) (world 0).alive
        (connect_loop exists expected left (λ j. world (suc j)) next) missed
        (loop-reaches left i (λ j. world (suc j)) lost_before c next (version ∙ e) refl
          (orphans ∙ same) (omega arith) (λ j k. before (suc j) (omega arith)) h)

  -- If one of the first forty attempts finds a daemon that it keeps, and none before ends the loop,
  -- `connect` of a client without a socket connects. Its socket is the connection that this attempt
  -- opened, and none that an earlier one opened is left open behind it.
  pub connect-reaches :
      (i : ℕ) (world : ℕ → Attempt) (c : Client)
      → c.socket ≡ none
      → i < connect_attempts
      → ((j : ℕ) → j < i → is_final (try (world j) c).outcome ≡ false)
      → (try (world i) c).outcome ≡ connected
      → IsConnected (world i).connection c.orphans (connect exists expected world c)
  unfolding connect
  connect-reaches i world c free l before h =
      loop-reaches connect_attempts i world c.orphans c c refl free refl l before h
