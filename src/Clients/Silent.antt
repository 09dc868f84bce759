-- ===== src/Clients/Silent.antt =====
-- daemon/src/main.ts, `broadcast`: only connections that are open are sent a message, once.
use claude_persist.Clients.Sets.{reached-IsSound}
use claude_persist.Clients.History.{wants, follows, subs_count-wants, feed_count-follows}
use claude_persist.Clients.{Hub, Reached, or_empty, subscribed, broadcast}
use claude_persist.Ids.{in_ids, count, count-append, count-keep_if, in_ids-count}
use claude_persist.JsMap.{get}
use claude_persist.Prelude.{
  keep_if, ℕ, ◌≤◌, String, Bool, true, false, not, ◌&&◌, ◌||◌, ◌≡◌, arith, if◌then◌else◌,
}

count-broadcast :
    (c : ℕ) (s : String) (in_feed : Bool) (h : Hub)
    → count c (subscribed s h) ≤ 1
    → count c h.feed_subscribers ≤ 1
    → count c (broadcast s in_feed h)
      ≡ (if in_ids c (subscribed s h) || (in_feed && in_ids c h.feed_subscribers) then 1 else 0)
unfolding broadcast
count-broadcast c s false h one follows = ground (arith, in_ids-count c (subscribed s h), one)
count-broadcast c s true h one follows =
    let subs = subscribed s h in
    ground (
      arith,
      in_ids-count c subs,
      in_ids-count c h.feed_subscribers,
      count-append c subs (keep_if (λ d. not (in_ids d subs)) h.feed_subscribers),
      count-keep_if (λ d. not (in_ids d subs)) c h.feed_subscribers,
    )

-- In a hub that connections reach by opening, closing, attaching, detaching and following, and
-- where sessions are deleted: a message of a session is sent once to each connection that attached
-- to it and since then neither detached nor closed nor saw it deleted; where the feed carries it,
-- once also to each other one that asked for the feed and since then neither gave it up nor closed;
-- to no other, and only to connections that are open.
pub broadcast-reached :
    {h : Hub} (r : Reached h) (c : ℕ) (s : String) (in_feed : Bool)
    → (count c (broadcast s in_feed h) ≡ (if wants c s r || (in_feed && follows c r) then 1 else 0))
      × (count c (broadcast s in_feed h) ≤ count c h.clients)
unfolding subscribed
broadcast-reached {h} r c s in_feed =
    let (subs, fed, once) = reached-IsSound r in
    let sent = count-broadcast c s in_feed h (subs c s).0 (fed c).0 in
    let attached = in_ids-count c (or_empty (get s h.subscribers)) in
    let following = in_ids-count c h.feed_subscribers in
    (
      ground (arith, sent, attached, following, subs_count-wants r c s, feed_count-follows r c),
      ground (arith, sent, attached, following, (subs c s).1, (fed c).1),
    )
