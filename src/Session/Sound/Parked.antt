-- ===== src/Session/Sound/Parked.antt =====
-- Parking, restoring and cancelling a turn keep the invariants.
use claude_persist.Session.Event.{Text, Notice}
use claude_persist.Session.State.{Session, PendingTurn, Env, Daemon}
use claude_persist.Session.Parking.{
  Cause, rate_limit, stall, overload, launch, tell, unwatched, hold_again, park_unless, hold,
  persist_pending, schedule_retry, park_for_account_switch, account_activated, dispose_active_query,
  cancel_turn, cancel_pending_retry, cancelled, park_for_restart, park_for_limit, parked_for,
  given_up, before_parking, watch_after, Decision, stop_status_watch, clear_persisted_pending,
}
use claude_persist.Session.Sound.{
  IsSound, append_event-IsSound, update_turns-IsSound, when-IsSound, Keeps,
}
use claude_persist.Prelude.{ℕ, ◌≡◌, refl, String, Bool, true, false, Option, none, some}

module _ (env : Env) (t : Session) (now : ℕ) where
  abbrev Sound : Session → Type 0
  Sound = IsSound env t

  pub tell-Sound : (notice : Notice) (s : Session) → Sound s → Sound (tell env now notice s)
  unfolding tell
  tell-Sound notice s h = append_event-IsSound env t now _ s h

  pub dispose_active_query-Sound : (s : Session) → Sound s → Sound (dispose_active_query s)
  unfolding dispose_active_query
  dispose_active_query-Sound s h = record {
    kept = h.kept;
    more = h.more;
    told = h.told;
    grown = h.grown;
  }

  pub schedule-Keeps : Keeps env t (schedule_retry now)
  unfolding schedule_retry
  schedule-Keeps u e = e

  pub cancelled-Keeps : Keeps env t cancelled
  unfolding cancelled clear_persisted_pending
  cancelled-Keeps u e = refl

  pub unwatched-Keeps : Keeps env t unwatched
  unfolding unwatched stop_status_watch
  unwatched-Keeps u e = e

  pub cancel_turn-Sound :
      (turn : Option PendingTurn) (reason : String) (s : Session)
      → Sound s
      → Sound (cancel_turn env now turn reason s)
  unfolding cancel_turn
  cancel_turn-Sound none reason s h = search (update_turns-IsSound env t, unwatched-Keeps)
  cancel_turn-Sound (some turn) reason s h =
      search (update_turns-IsSound env t, tell-Sound, cancelled-Keeps)

  pub cancel_pending_retry-Sound :
      (reason : String) (s : Session) → Sound s → Sound (cancel_pending_retry env now reason s)
  unfolding cancel_pending_retry
  cancel_pending_retry-Sound reason s h = cancel_turn-Sound s.turns.pending reason s h

  given_up-Keeps : Keeps env t given_up
  unfolding given_up stop_status_watch clear_persisted_pending
  given_up-Keeps u e = refl

  watch-Keeps : (cause : Cause) → Keeps env t (watch_after cause)
  unfolding watch_after
  watch-Keeps overload u e = e
  watch-Keeps stall u e = e
  watch-Keeps launch u e = e
  watch-Keeps rate_limit u e = e

  module _ (writes : env.can_write ≡ true) where
    pub hold-Keeps : (turn : PendingTurn) → Keeps env t (hold env now turn)
    unfolding hold persist_pending
    hold-Keeps turn u e = rw writes refl

    hold_again-Keeps :
        (attempts : ℕ) (text : Text) (decision : Decision)
        → Keeps env t (hold_again env now attempts text decision)
    unfolding hold_again
    hold_again-Keeps attempts text decision u e =
        hold-Keeps _ (record u { consecutive_retries = attempts }) e

    ruleset parking = (
      update_turns-IsSound, when-IsSound, tell-Sound, schedule-Keeps, hold-Keeps, hold_again-Keeps,
      dispose_active_query-Sound, given_up-Keeps, watch-Keeps,
    )

    pub park_for_account_switch-Sound :
        (retry_at : ℕ) (account : Option String) (reason : String) (s : Session)
        → Sound s
        → Sound (park_for_account_switch env now retry_at account reason s)
    unfolding park_for_account_switch
    park_for_account_switch-Sound retry_at account reason s h = search parking depth 8

    pub account_activated-Sound :
        (account : Option String) (reason : String) (s : Session)
        → Sound s
        → Sound (account_activated env now account reason s)
    unfolding account_activated
    account_activated-Sound none reason s h = h
    account_activated-Sound (some account) reason s h =
        search (dispose_active_query-Sound, park_for_account_switch-Sound)

    pub park_for_restart-Sound : (s : Session) → Sound s → Sound (park_for_restart env now s).0
    unfolding park_for_restart
    park_for_restart-Sound s h = search parking depth 8

    before_parking-Sound :
        (cause : Cause) (account : Option String) (s : Session)
        → Sound s
        → Sound (before_parking env now cause account s)
    unfolding before_parking
    before_parking-Sound stall account s h = dispose_active_query-Sound s h
    before_parking-Sound launch account s h = dispose_active_query-Sound s h
    before_parking-Sound overload account s h = h
    before_parking-Sound rate_limit account s h = account_activated-Sound account _ s h

    parked_for-Sound :
        (attempts : ℕ) (text : Text) (decision : Decision) (s : Session)
        → Sound s
        → Sound (parked_for env now attempts text decision s)
    unfolding parked_for
    parked_for-Sound attempts text decision s h = search parking depth 8

    park_unless-Sound :
        (used : Bool) (daemon : Daemon) (text : Text) (cause : Cause) (attempts : ℕ) (s : Session)
        → Sound s
        → Sound (park_unless env now used daemon text cause attempts s)
    unfolding park_unless
    park_unless-Sound true daemon text cause attempts s h = search parking depth 8
    park_unless-Sound false daemon text cause attempts s h =
        search (parking, parked_for-Sound, before_parking-Sound) depth 8

    pub park_for_limit-Sound :
        (daemon : Daemon) (text : Text) (cause : Cause) (s : Session)
        → Sound s
        → Sound (park_for_limit env now daemon text cause s)
    unfolding park_for_limit
    park_for_limit-Sound daemon text cause s h = park_unless-Sound _ daemon text cause _ s h
