-- ===== src/Realtime/Hub.antt =====
-- internal/realtime/hub.go: the set of connected clients and their send channels.
-- A client is a number that stands for its pointer. A map's `range` order is open in Go: here it
-- is the order of `clients`. A send on a closed channel and a second close panic: `none`.
pub mod Delivery
pub mod Soundness
pub mod Queues
pub mod Safety
mod Tests
use fileflow.Common.{
  Bool, Bytes, List, Option, [], any, false, if◌then◌else◌, length, ltb, none, not, some, true, ℕ,
  ◌++◌, ◌==◌, ◌∷◌, nat_key, ◌>>=◌,
}
use fileflow.Realtime.Events.{marshal_event, Codec, event_presence, new_event, presence}

-- The capacity of `Client.send`.
abbrev pub send_capacity : ℕ
send_capacity = 256

pub record Chan : Type 0 where
  pub queue : List Bytes
  pub closed : Bool

pub record Hub : Type 0 where
  pub clients : List ℕ
  pub chans : ℕ → Chan
  -- The goroutines that wait to hand their client to `h.unregister`.
  pub pending : List ℕ

abbrev pub empty_chan : Chan
empty_chan = record { queue = []; closed = false }

unfoldable pub new_hub : Hub
new_hub = record { clients = []; chans = λ _. empty_chan; pending = [] }

abbrev pub set_chan : Hub → ℕ → Chan → Hub
set_chan h c ch = record h { chans = λ j. if j == c then ch else h.chans j }

-- `select { case c.send <- m: … default: … }`: whether the message was taken.
unfoldable pub try_send : Hub → ℕ → Bytes → Option (Bool × Hub)
try_send h c m =
    let ch = h.chans c in
    if ch.closed
    then none
    else if ltb (length ch.queue) send_capacity
    then some (true, set_chan h c (record ch { queue = ch.queue ++ m ∷ [] }))
    else some (false, h)

-- `close(client.send)`
unfoldable pub close_chan : Hub → ℕ → Option Hub
close_chan h c =
    if (h.chans c).closed then none else some (set_chan h c (record (h.chans c) { closed = true }))

unfoldable pub member : ℕ → List ℕ → Bool
member c [] = false
member c (j ∷ js) = if j == c then true else member c js

unfoldable pub remove : ℕ → List ℕ → List ℕ
remove c [] = []
remove c (j ∷ js) = if j == c then js else j ∷ remove c js

unfoldable pub online_count : Hub → ℕ
online_count h = length h.clients

abbrev is_excluded : ℕ → Option ℕ → Bool
is_excluded c none = false
is_excluded c (some x) = c == x

-- A client that cannot take the message is handed to `h.unregister` by a goroutine of its own.
unfoldable pub broadcast_one : Hub → Bytes → Option ℕ → ℕ → Option Hub
unfolding try_send
broadcast_one h m exclude c = if is_excluded c exclude then some h else do
  (sent, h') ← try_send h c m
  some (if sent then h' else record h' { pending = h'.pending ++ c ∷ [] })

unfoldable pub broadcast_loop : Bytes → Option ℕ → List ℕ → Hub → Option Hub
broadcast_loop m exclude [] h = some h
broadcast_loop m exclude (c ∷ cs) h = do
  h' ← broadcast_one h m exclude c
  broadcast_loop m exclude cs h'

unfoldable pub broadcast : Hub → Bytes → Option ℕ → Option Hub
broadcast h m exclude = broadcast_loop m exclude h.clients h

-- The first client but the sender that can take the message gets it.
unfoldable pub send_loop : ℕ → Bytes → List ℕ → Hub → Option (Bool × Hub)
send_loop sender m [] h = some (false, h)
send_loop sender m (c ∷ cs) h =
    let next = send_loop sender m cs h in
    if c == sender
    then next
    else do (sent, h') ← try_send h c m; if sent then some (true, h') else next

unfoldable pub send_to_peer : Hub → ℕ → Bytes → Option (Bool × Hub)
send_to_peer h sender m = send_loop sender m h.clients h

unfoldable pub has_peer : Hub → ℕ → Bool
has_peer h sender = any (λ c. not (c == sender)) h.clients

module _ (codec : Codec) where
  unfoldable pub broadcast_presence : Hub → ℕ → Option Hub
  broadcast_presence h now =
      elim (marshal_event codec (new_event event_presence (presence (online_count h) 2) now)) [
        | none ↦ some h
        | some m ↦ broadcast h m none
      ]

  -- The cases of the loop `Run`.
  unfoldable pub on_register : Hub → ℕ → ℕ → Option Hub
  on_register h c now =
      broadcast_presence
        (record h { clients = if member c h.clients then h.clients else c ∷ h.clients }) now

  unfoldable pub on_unregister : Hub → ℕ → ℕ → Option Hub
  on_unregister h c now = do
    h' ←
        if member c h.clients
        then close_chan (record h { clients = remove c h.clients }) c
        else some h
    broadcast_presence h' now

unfoldable pub close_loop : List ℕ → Hub → Option Hub
close_loop [] h = some (record h { clients = [] })
close_loop (c ∷ cs) h = do h' ← close_chan h c; close_loop cs h'

-- The case of `Run` that ends it.
unfoldable pub on_stop : Hub → Option Hub
on_stop h = close_loop h.clients h
