-- ===== src/Clients.antt =====
-- daemon/src/main.ts: the connections, what they are attached to, and who is sent a message. A
-- connection is its number, a message only whether the feed carries it.
mod Sets
mod History
mod Silent
mod Tests
use claude_persist.Ids.{in_ids, without, add_id}
use claude_persist.JsMap.{JsMap, get, set, delete}
use claude_persist.Prelude.{
  ◌≡◌, ℕ, String, Bool, true, false, not, Option, none, some, List, [], ◌∷◌, ◌++◌, keep_if, any,
  ◌==◌, str_eq, if◌then◌else◌,
}

-- `attached` is the field of each client.
pub record Hub : Type 0 where
  pub clients : List ℕ
  pub subscribers : JsMap (List ℕ)
  pub feed_subscribers : List ℕ
  pub attached : ℕ → List String

abbrev pub has_name : String → List String → Bool
has_name s names = any (λ n. str_eq n s) names

abbrev pub update {ℓ} : {A : Type ℓ} → ℕ → A → (ℕ → A) → ℕ → A
update c a f d = if c == d then a else f d

abbrev pub add_name : String → List String → List String
add_name s names = if has_name s names then names else names ++ s ∷ []

abbrev pub remove_name : String → List String → List String
remove_name s names = keep_if (λ n. not (str_eq n s)) names

abbrev pub or_empty : Option (List ℕ) → List ℕ
or_empty none = []
or_empty (some ids) = ids

-- `subscribers.get(sessionId)`, with no set as the empty one.
unfoldable pub subscribed : String → Hub → List ℕ
subscribed s h = or_empty (get s h.subscribers)

unfoldable pub open_client : ℕ → Hub → Hub
open_client c h = record h { clients = add_id c h.clients; attached = update c [] h.attached }

abbrev pub unsubscribed : ℕ → String → JsMap (List ℕ) → Option (List ℕ) → JsMap (List ℕ)
unsubscribed c s subs none = subs
unsubscribed c s subs (some ids) = set s (without c ids) subs

-- `subscribers.get(sessionId)?.delete(client)`
unfoldable pub unsubscribe : ℕ → String → JsMap (List ℕ) → JsMap (List ℕ)
unsubscribe c s subs = unsubscribed c s subs (get s subs)

abbrev pub unsubscribe_all : ℕ → List String → JsMap (List ℕ) → JsMap (List ℕ)
unsubscribe_all c [] subs = subs
unsubscribe_all c (s ∷ names) subs = unsubscribe_all c names (unsubscribe c s subs)

unfoldable pub close_client : ℕ → Hub → Hub
close_client c h = record h {
  clients = without c h.clients;
  feed_subscribers = without c h.feed_subscribers;
  subscribers = unsubscribe_all c (h.attached c) h.subscribers;
}

-- `attach`, past `getSession`, which throws for an unknown session.
unfoldable pub attach : ℕ → String → Hub → Hub
attach c s h = record h {
  attached = update c (add_name s (h.attached c)) h.attached;
  subscribers = set s (add_id c (or_empty (get s h.subscribers))) h.subscribers;
}

unfoldable pub detach : ℕ → String → Hub → Hub
detach c s h = record h {
  attached = update c (remove_name s (h.attached c)) h.attached;
  subscribers = unsubscribe c s h.subscribers;
}

unfoldable pub feed : ℕ → Hub → Hub
feed c h = record h { feed_subscribers = add_id c h.feed_subscribers }

unfoldable pub unfeed : ℕ → Hub → Hub
unfeed c h = record h { feed_subscribers = without c h.feed_subscribers }

unfoldable pub delete_subscribers : String → Hub → Hub
delete_subscribers s h = record h { subscribers = delete s h.subscribers }

-- The clients that `broadcast` sends a message of a session to, in order.
unfoldable pub broadcast : String → Bool → Hub → List ℕ
broadcast s in_feed h =
    let subs = subscribed s h in
    if in_feed then subs ++ keep_if (λ c. not (in_ids c subs)) h.feed_subscribers else subs

unfoldable pub broadcast_all : Hub → List ℕ
broadcast_all h = h.clients

abbrev pub no_clients : Hub
no_clients = record { clients = []; subscribers = []; feed_subscribers = []; attached = λ c. [] }

-- A connection that is open asks; a new one has a number that is not in use.
pub data Reached : Hub → Type 0 where
  start : Reached no_clients
  opens : {h : Hub} (c : ℕ) → in_ids c h.clients ≡ false → Reached h → Reached (open_client c h)
  closes : {h : Hub} (c : ℕ) → Reached h → Reached (close_client c h)
  attaches :
      {h : Hub} (c : ℕ) (s : String)
      → in_ids c h.clients ≡ true
      → Reached h
      → Reached (attach c s h)
  detaches :
      {h : Hub} (c : ℕ) (s : String)
      → in_ids c h.clients ≡ true
      → Reached h
      → Reached (detach c s h)
  feeds : {h : Hub} (c : ℕ) → in_ids c h.clients ≡ true → Reached h → Reached (feed c h)
  unfeeds : {h : Hub} (c : ℕ) → Reached h → Reached (unfeed c h)
  deletes : {h : Hub} (s : String) → Reached h → Reached (delete_subscribers s h)
