-- ===== src/DaemonClient/Builds.antt =====
-- extension/src/daemonClient.ts, `verifyProtocol`: which build of a window kills the daemon of which.
use Prim.Native.Nat.{compare}
use claude_persist.DaemonClient.{
  Order, lt, eq, first_of, compare_versions, HelloResult, staleness_of, older_build_of, Staleness,
  older_build,
}
use claude_persist.DaemonClient.Verify.{
  act_on, Client, Listed, Kill, Verified, verify_protocol, replace_daemon,
}
use claude_persist.DaemonClient.Order.{
  Order-cases, IsChain, opposite, first_of-IsChain, compare-IsChain, compare_versions-IsChain,
  opposite_versions, opposite-compare, opposite_first,
}
use claude_persist.Texts.{Text, is_empty}
use claude_persist.Prelude.{
  ℕ, Bool, true, false, Option, none, some, List, [], ◌∷◌, ◌≡◌, ◌≢◌, refl, sym, ap, ◌∙◌, inl, inr,
  arith,
}

-- What an extension brings along: its protocol, its version and its daemon's entry.
pub record Build : Type 0 where
  pub protocol : ℕ
  pub version : Text
  pub entry : Text

abbrev pub daemon_of : ℕ → Build → HelloResult
daemon_of pid b = record {
  protocol_version = b.protocol;
  pid = pid;
  entry = b.entry;
  version = some b.version;
}

abbrev pub client_of : Build → Client
client_of b = record { socket = some 1; orphans = []; idle_watch = none; version = some b.version }

-- The order of builds: by protocol, then by version.
unfoldable pub behind : Build → Build → Order
behind a b = first_of (compare a.protocol b.protocol) (compare_versions a.version b.version)

pub behind-IsChain : (a b c : Build) → IsChain (behind a b) (behind b c) (behind a c)
unfolding behind
behind-IsChain a b c =
    first_of-IsChain (compare a.protocol b.protocol) (compare b.protocol c.protocol)
      (compare a.protocol c.protocol) (compare_versions a.version b.version)
      (compare_versions b.version c.version) (compare_versions a.version c.version)
      (compare-IsChain a.protocol b.protocol c.protocol)
      (compare_versions-IsChain a.version b.version c.version)

pub opposite-behind : (a b : Build) → behind b a ≡ opposite (behind a b)
unfolding behind
opposite-behind a b =
    opposite_first (compare a.protocol b.protocol) (compare_versions a.version b.version)
      (opposite-compare a.protocol b.protocol) (opposite_versions a.version b.version)

module _ (exists : Text → Bool) where
  -- An installed build has its entry on disk and a version.
  abbrev pub IsInstalled : Build → Type 0
  IsInstalled b = (exists b.entry ≡ true) × (is_empty b.version ≡ false)

  -- The window of `w` connects to the daemon of `b`, with the sessions that are listed.
  abbrev pub meet : ℕ → Build → Build → Option (List Listed) → Kill → ℕ → Verified
  meet pid b w sessions kill now =
      verify_protocol exists w.protocol (some (daemon_of pid b)) sessions kill now (client_of w)

  -- The build of the daemon that runs behind a visit: the window's own if it killed the one there.
  abbrev pub after_visit : Build → Build → Option ℕ → Build
  after_visit b w none = b
  after_visit b w (some pid) = w

  -- Windows connect one after the other, with no session at work, and each signal arrives.
  unfoldable pub visits : Build → List Build → Build
  visits b [] = b
  visits b (w ∷ ws) = visits (after_visit b w (meet 0 b w none Kill.signalled 0).kills) ws

  older_build_of-none :
      (v ours : Text) → compare_versions v ours ≢ lt → older_build_of (some v) (some ours) ≡ none
  unfolding older_build_of
  older_build_of-none v ours h = elim (Order-cases (compare_versions v ours)) [
    | inl l ↦ absurd (h l)
    | inr (inl e) ↦ rw e (ground arith)
    | inr (inr g) ↦ rw g (ground arith)
  ]

  same_protocol :
      (pid : ℕ) (b w : Build)
      → compare b.protocol w.protocol ≡ eq
      → exists b.entry ≡ true
      → staleness_of exists (daemon_of pid b) w.protocol (some w.version)
        ≡ older_build_of (some b.version) (some w.version)
  unfolding staleness_of
  same_protocol pid b w e h = ground arith

  meet-fresh :
      (pid : ℕ) (b w : Build) (sessions : Option (List Listed)) (kill : Kill) (now : ℕ)
      → staleness_of exists (daemon_of pid b) w.protocol (some w.version) ≡ none
      → (meet pid b w sessions kill now).kills ≡ none
  unfolding verify_protocol act_on
  meet-fresh pid b w sessions kill now e = rw e refl

  pub meet-kills_of_behind :
      (pid : ℕ) (b w : Build) (sessions : Option (List Listed)) (kill : Kill) (now : ℕ)
      → IsInstalled b
      → behind b w ≢ lt
      → (meet pid b w sessions kill now).kills ≡ none
  unfolding behind verify_protocol act_on staleness_of replace_daemon
  meet-kills_of_behind pid b w sessions kill now i h =
      elim (Order-cases (compare b.protocol w.protocol)) [
        | inl l ↦ absurd (h (ap (λ o. first_of o (compare_versions b.version w.version)) l))
        | inr (inl e) ↦ meet-fresh pid b w sessions kill now (
            same_protocol pid b w e i.0
            ∙ older_build_of-none b.version w.version
                (λ k. h (ap (λ o. first_of o (compare_versions b.version w.version)) e ∙ k)))
        | inr (inr g) ↦ ground arith
      ]

  older_build_of-some :
      (v ours : Text)
      → is_empty v ≡ false
      → is_empty ours ≡ false
      → compare_versions v ours ≡ lt
      → (s : Staleness) × (older_build_of (some v) (some ours) ≡ some s) × (s.urgent ≡ false)
  unfolding older_build_of
  older_build_of-some v ours i j h =
      (record { reason = older_build v ours; urgent = false }, ground arith, refl)

  meet-idle :
      (pid : ℕ) (b w : Build) (now : ℕ) (s : Staleness)
      → staleness_of exists (daemon_of pid b) w.protocol (some w.version) ≡ some s
      → s.urgent ≡ false
      → compare b.protocol w.protocol ≡ eq
      → (meet pid b w none Kill.signalled now).kills ≡ some pid
  unfolding verify_protocol act_on replace_daemon
  meet-idle pid b w now s e u same = rw e (ground arith)

  pub meet-kills_of_idle :
      (pid : ℕ) (b w : Build) (now : ℕ)
      → IsInstalled b
      → IsInstalled w
      → behind b w ≡ lt
      → (meet pid b w none Kill.signalled now).kills ≡ some pid
  unfolding behind verify_protocol act_on staleness_of replace_daemon
  meet-kills_of_idle pid b w now i j h = elim (Order-cases (compare b.protocol w.protocol)) [
    | inl l ↦ ground arith
    | inr (inl e) ↦
        let by_version = sym (ap (λ o. first_of o (compare_versions b.version w.version)) e) ∙ h in
        let (s, old, calm) = older_build_of-some b.version w.version i.1 j.1 by_version in
        meet-idle pid b w now s (same_protocol pid b w e i.0 ∙ old) calm e
    | inr (inr g) ↦ ground arith
  ]
