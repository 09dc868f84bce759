-- ===== src/Clients/Tests.antt =====
-- Connection 1 is attached to the session a and follows all, connection 2 was attached and closed.
use claude_persist.Clients.{
  Hub, Reached, start, opens, closes, attaches, feeds, open_client, close_client, attach, feed,
  broadcast, no_clients, subscribed, unsubscribe,
}
use claude_persist.Clients.Silent.{broadcast-reached}
use claude_persist.Clients.History.{wants, follows}
use claude_persist.Ids.{count}
use claude_persist.JsMap.{get, set}
use claude_persist.Prelude.{◌≤◌, ◌||◌, ◌&&◌, true, false, [], ◌∷◌, ◌≡◌, refl, if◌then◌else◌}

abbrev hub : Hub
hub =
    close_client 2 (feed 1 (attach 2 "a" (attach 1 "a" (open_client 2 (open_client 1 no_clients)))))

abbrev reached : Reached hub
unfolding open_client attach feed
reached =
    closes 2
      (feeds 1 refl (attaches 2 "a" refl (attaches 1 "a" refl (opens 2 refl (opens 1 refl start)))))

sent : broadcast "a" true hub ≡ 1 ∷ []
unfolding broadcast subscribed get close_client feed attach open_client unsubscribe set
sent = refl

of_another : broadcast "b" true hub ≡ 1 ∷ []
unfolding broadcast subscribed get close_client feed attach open_client unsubscribe set
of_another = refl

unlisted : broadcast "b" false hub ≡ []
unfolding broadcast subscribed get close_client feed attach open_client unsubscribe set
unlisted = refl

broadcast-reached_example :
    (count 1 (broadcast "a" true hub)
      ≡ (if wants 1 "a" reached || (true && follows 1 reached) then 1 else 0))
    × (count 1 (broadcast "a" true hub) ≤ count 1 hub.clients)
broadcast-reached_example = broadcast-reached reached 1 "a" true
