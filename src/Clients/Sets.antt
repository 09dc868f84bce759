-- ===== src/Clients/Sets.antt =====
-- daemon/src/main.ts: the sets of connections hold each open one once.
use claude_persist.Clients.{
  Hub, Reached, start, opens, closes, attaches, detaches, feeds, unfeeds, deletes, has_name,
  remove_name, or_empty, open_client, unsubscribe, unsubscribed, unsubscribe_all, close_client,
  attach, detach, feed, unfeed, delete_subscribers, add_name,
}
use claude_persist.Ids.{in_ids, without, add_id, count, count-without, count-add_id, in_ids-count}
use claude_persist.JsMap.{JsMap, get, set, delete, get-set, get-delete}
use claude_persist.Prelude.{
  ℕ, ◌≤◌, String, true, false, ◌&&◌, ◌||◌, Option, none, some, List, [], ◌∷◌, ◌++◌, ◌≡◌, refl, ap,
  arith, ◌==◌, str_eq, eq_iff, if◌then◌else◌, Bool-cases, inl, inr,
}

abbrev pub subs_count : ℕ → String → JsMap (List ℕ) → ℕ
subs_count j t subs = count j (or_empty (get t subs))

-- Each set holds a connection once, and only open ones; a subscription is in the client's own list.
abbrev pub IsSound : Hub → Type 0
IsSound h =
    ((c : ℕ) (s : String)
      → (subs_count c s h.subscribers ≤ 1)
        × (1 ≤ subs_count c s h.subscribers
            → (has_name s (h.attached c) ≡ true) × (1 ≤ count c h.clients)))
    × ((c : ℕ)
        → (count c h.feed_subscribers ≤ 1)
          × (1 ≤ count c h.feed_subscribers → 1 ≤ count c h.clients))
    × ((c : ℕ) → count c h.clients ≤ 1)

has_name-append :
    (t s : String) (names : List String)
    → has_name t (names ++ s ∷ []) ≡ has_name t names || str_eq s t
has_name-append t s [] = ground arith
has_name-append t s (n ∷ names) = ground (arith, has_name-append t s names)

has_name-old :
    (t s : String) (names : List String)
    → has_name t names ≡ true
    → has_name t (add_name s names) ≡ true
has_name-old t s names h = ground (arith, has_name-append t s names)

has_name-new : (s : String) (names : List String) → has_name s (add_name s names) ≡ true
has_name-new s names = ground (arith, has_name-append s s names, eq_iff s s)

has_name-remove :
    (t s : String) (names : List String)
    → has_name t (remove_name s names) ≡ (if str_eq s t then false else has_name t names)
has_name-remove t s [] = ground arith
has_name-remove t s (n ∷ names) =
    ground (arith, has_name-remove t s names, eq_iff n s, eq_iff n t, eq_iff s t)

count-unsubscribed :
    (j c : ℕ) (t s : String) (subs : JsMap (List ℕ)) (o : Option (List ℕ))
    → get s subs ≡ o
    → subs_count j t (unsubscribed c s subs o)
      ≡ (if str_eq s t && (j == c) then 0 else subs_count j t subs)
count-unsubscribed j c t s subs none e = elim (Bool-cases (str_eq s t)) [
  | inl same ↦ let there : get t subs ≡ none = ground (arith, eq_iff s t) in rw there (ground arith)
  | inr other ↦ rw other refl
]
count-unsubscribed j c t s subs (some ids) e = elim (Bool-cases (str_eq s t)) [
  | inl same ↦
      let there : get t subs ≡ some ids = ground (arith, eq_iff s t) in
      let changed : get t (set s (without c ids) subs) ≡ some (without c ids) =
        ground (arith, get-set s t (without c ids) subs) in
      rw changed (rw there (rw same (count-without j c ids)))
  | inr other ↦ rw (get-set s t (without c ids) subs) (rw other refl)
]

pub count-unsubscribe :
    (j c : ℕ) (t s : String) (subs : JsMap (List ℕ))
    → subs_count j t (unsubscribe c s subs)
      ≡ (if str_eq s t && (j == c) then 0 else subs_count j t subs)
unfolding unsubscribe
count-unsubscribe j c t s subs = count-unsubscribed j c t s subs (get s subs) refl

pub count-unsubscribe_all :
    (j c : ℕ) (t : String) (names : List String) (subs : JsMap (List ℕ))
    → subs_count j t (unsubscribe_all c names subs)
      ≡ (if has_name t names && (j == c) then 0 else subs_count j t subs)
count-unsubscribe_all j c t [] subs = refl
count-unsubscribe_all j c t (s ∷ names) subs = ground (
  arith,
  count-unsubscribe_all j c t names (unsubscribe c s subs),
  count-unsubscribe j c t s subs,
)

pub count-set :
    (d c : ℕ) (t s : String) (subs : JsMap (List ℕ))
    → subs_count c s subs ≤ 1
    → subs_count d t (set s (add_id c (or_empty (get s subs))) subs)
      ≡ (if str_eq s t && (d == c) then 1 else subs_count d t subs)
count-set d c t s subs h = elim (Bool-cases (str_eq s t)) [
  | inl same ↦
      let here : s ≡ t = ground (arith, eq_iff s t) in
      let old : subs_count d s subs ≡ subs_count d t subs = ap (λ k. subs_count d k subs) here in
      rw (get-set s t (add_id c (or_empty (get s subs))) subs)
        (rw same (ground (arith, old, count-add_id d c (or_empty (get s subs)) h)))
  | inr other ↦ rw (get-set s t (add_id c (or_empty (get s subs))) subs) (rw other refl)
]

pub count-delete :
    (d : ℕ) (t s : String) (subs : JsMap (List ℕ))
    → subs_count d t (delete s subs) ≡ (if str_eq s t then 0 else subs_count d t subs)
count-delete d t s subs = elim (Bool-cases (str_eq s t)) [
  | inl same ↦ rw (get-delete s t subs) (rw same refl)
  | inr other ↦ rw (get-delete s t subs) (rw other refl)
]

open_client-IsSound :
    (c : ℕ) (h : Hub) → in_ids c h.clients ≡ false → IsSound h → IsSound (open_client c h)
unfolding open_client
open_client-IsSound c h new (subs, fed, once) = (
  λ d s. (
    (subs d s).0,
    λ k.
        ground (arith, (subs d s).1, count-add_id d c h.clients (once c), in_ids-count d h.clients),
  ),
  λ d. ((fed d).0, λ k. ground (arith, (fed d).1, count-add_id d c h.clients (once c))),
  λ d. ground (arith, once d, count-add_id d c h.clients (once c)),
)

close_client-IsSound : (c : ℕ) (h : Hub) → IsSound h → IsSound (close_client c h)
unfolding close_client
close_client-IsSound c h (subs, fed, once) = (
  λ d s.
      let left = count-unsubscribe_all d c s (h.attached c) h.subscribers in
      let others = count-without d c h.clients in
      let same_list = λ (e : d ≡ c). ap (λ x. has_name s (h.attached x)) e in
      (
        ground (arith, left, (subs d s).0),
        λ k. (
          ground (arith, left, (subs d s).1),
          ground (arith, left, others, (subs d s).1, same_list),
        ),
      ),
  λ d. (
    ground (arith, (fed d).0, count-without d c h.feed_subscribers),
    λ k.
        ground
          (arith, (fed d).1, count-without d c h.feed_subscribers, count-without d c h.clients),
  ),
  λ d. ground (arith, once d, count-without d c h.clients),
)

attach-IsSound :
    (c : ℕ) (s : String) (h : Hub) → in_ids c h.clients ≡ true → IsSound h → IsSound (attach c s h)
unfolding attach
attach-IsSound c s h opened (subs, fed, once) = (
  λ d t.
      let now = count-set d c t s h.subscribers (subs c s).0 in
      let own = λ (e : d ≡ c). ap (λ x. has_name t (h.attached x)) e in
      let new = λ (e : s ≡ t). ap (λ x. has_name x (add_name s (h.attached c))) e in
      (
        ground (arith, now, (subs d t).0),
        λ k. (
          ground (
            arith,
            now,
            (subs d t).1,
            own,
            new,
            has_name-old t s (h.attached c),
            has_name-new s (h.attached c),
            eq_iff s t,
          ),
          ground (arith, now, (subs d t).1, in_ids-count d h.clients),
        ),
      ),
  fed,
  once,
)

detach-IsSound : (c : ℕ) (s : String) (h : Hub) → IsSound h → IsSound (detach c s h)
unfolding detach
detach-IsSound c s h (subs, fed, once) = (
  λ d t.
      let left = count-unsubscribe d c t s h.subscribers in
      let own = λ (e : d ≡ c). ap (λ x. has_name t (h.attached x)) e in
      (
        ground (arith, left, (subs d t).0),
        λ k. (
          ground (arith, left, (subs d t).1, own, has_name-remove t s (h.attached c)),
          ground (arith, left, (subs d t).1),
        ),
      ),
  fed,
  once,
)

feed-IsSound : (c : ℕ) (h : Hub) → in_ids c h.clients ≡ true → IsSound h → IsSound (feed c h)
unfolding feed
feed-IsSound c h opened (subs, fed, once) = (
  subs,
  λ d. (
    ground (arith, (fed d).0, count-add_id d c h.feed_subscribers (fed c).0),
    λ k.
        ground (
          arith,
          (fed d).1,
          count-add_id d c h.feed_subscribers (fed c).0,
          in_ids-count d h.clients,
        ),
  ),
  once,
)

unfeed-IsSound : (c : ℕ) (h : Hub) → IsSound h → IsSound (unfeed c h)
unfolding unfeed
unfeed-IsSound c h (subs, fed, once) = (
  subs,
  λ d. (
    ground (arith, (fed d).0, count-without d c h.feed_subscribers),
    λ k. ground (arith, (fed d).1, count-without d c h.feed_subscribers),
  ),
  once,
)

delete_subscribers-IsSound : (s : String) (h : Hub) → IsSound h → IsSound (delete_subscribers s h)
unfolding delete_subscribers
delete_subscribers-IsSound s h (subs, fed, once) = (
  λ d t.
      let left = count-delete d t s h.subscribers in
      (
        ground (arith, left, (subs d t).0),
        λ k. (ground (arith, left, (subs d t).1), ground (arith, left, (subs d t).1)),
      ),
  fed,
  once,
)

pub reached-IsSound : {h : Hub} → Reached h → IsSound h
reached-IsSound start = (
  λ c s. (unfold get in omega arith, λ k. absurd (unfold get in ground arith)),
  λ c. (omega arith, λ k. absurd (omega arith)),
  λ c. omega arith,
)
reached-IsSound (opens {h} c new r) = open_client-IsSound c h new (reached-IsSound r)
reached-IsSound (closes {h} c r) = close_client-IsSound c h (reached-IsSound r)
reached-IsSound (attaches {h} c s opened r) = attach-IsSound c s h opened (reached-IsSound r)
reached-IsSound (detaches {h} c s opened r) = detach-IsSound c s h (reached-IsSound r)
reached-IsSound (feeds {h} c opened r) = feed-IsSound c h opened (reached-IsSound r)
reached-IsSound (unfeeds {h} c r) = unfeed-IsSound c h (reached-IsSound r)
reached-IsSound (deletes {h} s r) = delete_subscribers-IsSound s h (reached-IsSound r)
