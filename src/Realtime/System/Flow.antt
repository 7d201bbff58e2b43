-- ===== src/Realtime/System/Flow.antt =====
-- internal/realtime: the channels and the `WritePump`s in every state of the server.
use fileflow.Common.{arith, refl, ℕ, ◌≡◌, bytes_key, nat_key}
use fileflow.Realtime.Events.{Codec}
use fileflow.Realtime.Hub.{new_hub}
use fileflow.Realtime.Hub.Queues.{GrowsChan-same}
use fileflow.Realtime.System.{Run, System, and_then, at_start, new_system, stopped}
use fileflow.Realtime.System.Reach.{Run-IsWired}
use fileflow.Realtime.System.Effect.{Effect-cases, Move-Effect}
use fileflow.Realtime.System.Order.{
  Flows, FlowsAt, Follows, Follows-trans, Grows-FlowsAt, Grows-Follows, Writes-FlowsAt,
  Writes-Follows, Writes-stopped,
}

-- In every state that the server can reach at most 256 messages wait for a client, and a `WritePump`
-- in the loop that takes the messages that waited still finds each of them: no receive in
-- that loop blocks.
pub Run-Flows :
    (codec : Codec) (p g : ℕ) (s : System) → Run codec (new_system p g) s → Flows s.hub s.pumps
unfolding new_hub
Run-Flows codec p g s at_start = λ j. (omega arith, tt)
Run-Flows codec p g s (and_then {t} r m) = λ j.
    Effect-cases (λ p ch p' ch'. FlowsAt p ch → FlowsAt p' ch') Grows-FlowsAt Writes-FlowsAt t s
      (Move-Effect codec t s m (Run-IsWired codec p g t r)) j (Run-Flows codec p g t r j)

Run-trans : (codec : Codec) (s t u : System) → Run codec s t → Run codec t u → Run codec s u
Run-trans codec s t u r at_start = r
Run-trans codec s t u r (and_then q m) = and_then (Run-trans codec s t _ r q) m

-- From any state that the server can reach to any later one, the stream of a client only grows
-- at its end by whole messages: the stream is what was written to it, then what its
-- `WritePump` holds, then what waits. So nothing that was put into a channel is lost, doubled,
-- changed or overtaken on its way to the WebSocket, unless the `WritePump` has returned.
pub Run-Follows :
    (codec : Codec) (p g : ℕ) (s t : System)
    → Run codec (new_system p g) s
    → Run codec s t
    → (j : ℕ) → Follows (s.pumps j) (s.hub.chans j) (t.pumps j) (t.hub.chans j)
Run-Follows codec p g s t r at_start j =
    Grows-Follows (s.pumps j) (s.hub.chans j) (s.hub.chans j)
      (GrowsChan-same (s.hub.chans j) (s.hub.chans j) refl)
Run-Follows codec p g s t r (and_then {t = u} q m) j =
    let effect = Move-Effect codec u t m (Run-IsWired codec p g u (Run-trans codec _ s u r q)) in
    Follows-trans (s.pumps j) (u.pumps j) (t.pumps j) (s.hub.chans j) (u.hub.chans j)
      (t.hub.chans j)
      (Effect-cases (λ p ch p' ch'. p.phase ≡ stopped → p'.phase ≡ stopped) (λ p ch ch' k e. e)
        Writes-stopped u t effect j)
      (Run-Follows codec p g s u r q j)
      (Effect-cases Follows Grows-Follows Writes-Follows u t effect j)
