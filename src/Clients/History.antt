-- ===== src/Clients/History.antt =====
-- daemon/src/main.ts: what a connection asked for, told from what happened and not from the sets.
use claude_persist.Clients.{
  Hub, Reached, start, opens, closes, attaches, detaches, feeds, unfeeds, deletes, open_client,
  close_client, attach, detach, feed, unfeed, delete_subscribers,
}
use claude_persist.Clients.Sets.{
  subs_count, count-unsubscribe, count-unsubscribe_all, count-set, count-delete, reached-IsSound,
}
use claude_persist.Ids.{count, count-without, count-add_id}
use claude_persist.JsMap.{get}
use claude_persist.Prelude.{
  ℕ, String, Bool, true, false, ◌&&◌, ◌≡◌, refl, ap, arith, ◌==◌, str_eq, if◌then◌else◌,
}

-- The last that happened to the connection and the session: it attached, or it detached or closed,
-- or the session was deleted.
unfoldable pub wants : ℕ → String → {h : Hub} → Reached h → Bool
wants c s start = false
wants c s (opens d new r) = wants c s r
wants c s (closes d r) = if c == d then false else wants c s r
wants c s (attaches d t opened r) = if str_eq t s && (c == d) then true else wants c s r
wants c s (detaches d t opened r) = if str_eq t s && (c == d) then false else wants c s r
wants c s (feeds d opened r) = wants c s r
wants c s (unfeeds d r) = wants c s r
wants c s (deletes t r) = if str_eq t s then false else wants c s r

-- The last that happened to the connection: it asked for the feed, or it gave it up or closed.
unfoldable pub follows : ℕ → {h : Hub} → Reached h → Bool
follows c start = false
follows c (opens d new r) = follows c r
follows c (closes d r) = if c == d then false else follows c r
follows c (attaches d t opened r) = follows c r
follows c (detaches d t opened r) = follows c r
follows c (feeds d opened r) = if c == d then true else follows c r
follows c (unfeeds d r) = if c == d then false else follows c r
follows c (deletes t r) = follows c r

abbrev pub once_if : Bool → ℕ
once_if b = if b then 1 else 0

pub subs_count-wants :
    {h : Hub} (r : Reached h) (c : ℕ) (s : String)
    → subs_count c s h.subscribers ≡ once_if (wants c s r)
unfolding wants open_client close_client attach detach feed unfeed delete_subscribers
subs_count-wants start c s = unfold get in refl
subs_count-wants (opens d new r) c s = subs_count-wants r c s
subs_count-wants (closes {h} d r) c s =
    let own = λ (e : c ≡ d). ap (λ x. subs_count x s h.subscribers) e in
    ground (
      arith,
      subs_count-wants r c s,
      count-unsubscribe_all c d s (h.attached d) h.subscribers,
      ((reached-IsSound r).0 d s).1,
      own,
    )
subs_count-wants (attaches {h} d t opened r) c s =
    ground
      (arith, subs_count-wants r c s, count-set c d s t h.subscribers ((reached-IsSound r).0 d t).0)
subs_count-wants (detaches {h} d t opened r) c s =
    ground (arith, subs_count-wants r c s, count-unsubscribe c d s t h.subscribers)
subs_count-wants (feeds d opened r) c s = subs_count-wants r c s
subs_count-wants (unfeeds d r) c s = subs_count-wants r c s
subs_count-wants (deletes {h} t r) c s =
    ground (arith, subs_count-wants r c s, count-delete c s t h.subscribers)

pub feed_count-follows :
    {h : Hub} (r : Reached h) (c : ℕ) → count c h.feed_subscribers ≡ once_if (follows c r)
unfolding follows open_client close_client attach detach feed unfeed delete_subscribers
feed_count-follows start c = refl
feed_count-follows (opens d new r) c = feed_count-follows r c
feed_count-follows (closes {h} d r) c =
    ground (arith, feed_count-follows r c, count-without c d h.feed_subscribers)
feed_count-follows (attaches d t opened r) c = feed_count-follows r c
feed_count-follows (detaches d t opened r) c = feed_count-follows r c
feed_count-follows (feeds {h} d opened r) c =
    ground (
      arith,
      feed_count-follows r c,
      count-add_id c d h.feed_subscribers ((reached-IsSound r).1 d).0,
    )
feed_count-follows (unfeeds {h} d r) c =
    ground (arith, feed_count-follows r c, count-without c d h.feed_subscribers)
feed_count-follows (deletes t r) c = feed_count-follows r c
