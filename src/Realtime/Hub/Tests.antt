-- ===== src/Realtime/Hub/Tests.antt =====
-- Runs of the hub of internal/realtime/hub.go with two and three clients.
use fileflow.Realtime.Hub.{
  Chan, Hub, broadcast, broadcast_loop, broadcast_one, broadcast_presence, empty_chan, member,
  new_hub, on_register, send_capacity, send_loop, send_to_peer, try_send,
}
use fileflow.Realtime.Events.{Codec}
use fileflow.Realtime.Hub.Delivery.{
  Broadcasts, Delivers, IsOpen, IsUnique, broadcast-Broadcasts, enqueue, send_to_peer-Delivers,
}
use fileflow.Realtime.Hub.Safety.{NoPanic, Reach, Reach-NoPanic, here, next, registers}
use fileflow.Common.{
  All, [], arith, codes, false, if◌then◌else◌, none, refl, replicate, some, true, ◌==◌, ◌∷◌, ◌≡◌,
  nat_key,
}

-- Clients 1, 2 and 3; the channel of 2 is full.
abbrev full_chan : Chan
full_chan = record { queue = replicate send_capacity (codes "m"); closed = false }

abbrev three : Hub
three = record {
  clients = 1 ∷ 2 ∷ 3 ∷ [];
  chans = λ j. if j == 2 then full_chan else empty_chan;
  pending = [];
}

three-IsOpen : All (IsOpen three) three.clients
three-IsOpen = (refl, (refl, (refl, tt)))

three-IsUnique : IsUnique three.clients
three-IsUnique = ((omega arith, (omega arith, tt)), ((omega arith, tt), (tt, tt)))

-- The full client is passed over.
sends_past_full : (send_to_peer three 1 (codes "x")) ≡ some (true, enqueue three 3 (codes "x"))
unfolding send_to_peer send_loop try_send
sends_past_full = refl

send_to_peer-Delivers_example :
    Delivers three 1 (codes "x") three.clients (send_to_peer three 1 (codes "x"))
send_to_peer-Delivers_example = send_to_peer-Delivers three 1 (codes "x") three-IsOpen

broadcast-Broadcasts_example :
    (h' : Hub) × (broadcast three (codes "x") none ≡ some h')
    × Broadcasts three (codes "x") none three.clients h'
broadcast-Broadcasts_example =
    broadcast-Broadcasts three (codes "x") none three-IsOpen three-IsUnique

abbrev no_json : Codec
no_json = record { marshal = λ e. some (codes "p"); unmarshal = λ d. none }

abbrev one_client : Hub
one_client = record {
  clients = 7 ∷ [];
  chans = λ j. if j == 7 then record { queue = codes "p" ∷ []; closed = false } else empty_chan;
  pending = [];
}

registers_one : on_register no_json new_hub 7 0 ≡ some one_client
unfolding on_register broadcast_presence broadcast broadcast_loop broadcast_one new_hub member
registers_one = refl

Reach-one_client : Reach no_json new_hub one_client
unfolding new_hub
Reach-one_client = next here (registers 7 0 refl registers_one)

Reach-NoPanic_example : NoPanic no_json one_client
Reach-NoPanic_example = Reach-NoPanic no_json one_client Reach-one_client
