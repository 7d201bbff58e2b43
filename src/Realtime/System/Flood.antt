-- ===== src/Realtime/System/Flood.antt =====
-- internal/realtime: one of two clients sends to the other, which does not read, until its channel
-- is full.
use fileflow.Common.{
  Bytes, [], ap, arith, false, inl, inr, length, length-append, refl, some, suc, true, zero, ℕ, ◌+◌,
  ◌-◌, ◌∙◌, ◌∷◌, ◌≡◌, ◌≢◌, bytes_key, nat_key,
}
use fileflow.Realtime.Events.{Codec, Event, event_ack}
use fileflow.Realtime.Hub.{Hub, member, send_capacity}
use fileflow.Realtime.Client.{Client, dispatch, forward, handle_message, kind_of}
use fileflow.Realtime.Client.Relay.{Delivers-IsPair, IsPair}
use fileflow.Realtime.Hub.Delivery.{enqueue, has_room, send_to_peer-Delivers}
use fileflow.Realtime.Hub.Soundness.{IsSound, send_to_peer-Keeps}
use fileflow.Realtime.System.{Run, System, and_then, new_system, reads}
use fileflow.Realtime.System.Reach.{Run-IsWired}
use fileflow.Realtime.System.Flow.{Run-Flows}
use fileflow.Realtime.System.Pair.{IsServing}

-- Bytes that are read as an acknowledgement.
pub record IsAck (codec : Codec) (d : Bytes) : Type 0 where
  pub event : Event
  pub parsed : codec.unmarshal d ≡ some event
  pub kind : event.kind ≡ event_ack

ack-forward :
    (codec : Codec) (c : Client) (h : Hub) (d : Bytes) (now : ℕ)
    → IsAck codec d
    → handle_message codec c h d now ≡ forward c h d
unfolding handle_message dispatch kind_of
ack-forward codec c h d now acks = rw (acks.parsed, handle_message, acks.kind) refl

module _ (codec : Codec) (p g : ℕ) (a b : Client) (distinct : a.id ≢ b.id) (d : Bytes)
    (acks : IsAck codec d) where
  abbrev pub Duo : System → Type 0
  Duo s = Run codec (new_system p g) s × IsServing (b ∷ a ∷ []) s

  Duo-IsPair : (s : System) → Duo s → IsPair s.hub b.id a.id
  unfolding member
  Duo-IsPair s (r, k) = record {
    other = distinct;
    connected = rw k.clients (ground (arith, distinct));
    alone = rw k.clients (inl refl, (inr refl, tt));
  }

  floods_one :
      (s : System)
      → Duo s
      → has_room s.hub a.id ≡ true
      → (t : System) × Duo t × (t.hub ≡ enqueue s.hub a.id d)
  floods_one s (r, k) room =
      let sound : IsSound s.hub = (Run-IsWired codec p g s r).sound in
      let (taken, h, e, _) = send_to_peer-Keeps s.hub b.id d sound in
      let there : h ≡ enqueue s.hub a.id d =
        Delivers-IsPair s.hub b.id a.id d taken h (Duo-IsPair s (r, k)) room
          (rw e at (send_to_peer-Delivers s.hub b.id d sound.all_open)) in
      let f : handle_message codec b s.hub d 0 ≡ some (b, h) =
        ack-forward codec b s.hub d 0 acks ∙ rw e refl in
      let t : System = record s { hub = h; readers = b ∷ a ∷ [] } in
      (
        t,
        (
          and_then r (reads [] (a ∷ []) b b d 0 h k.readers f refl),
          record {
            running = k.running;
            joining = k.joining;
            leaving = k.leaving;
            readers = refl;
            clients = ap (λ (x : Hub). x.clients) there ∙ k.clients;
            next_id = k.next_id;
          },
        ),
        there,
      )

  floods :
      (n : ℕ) (s : System)
      → Duo s
      → length (s.hub.chans a.id).queue + n ≡ send_capacity
      → (t : System) × Duo t × (has_room t.hub a.id ≡ false)
  floods zero s duo e = (s, duo, ground (arith, e))
  floods (suc n) s duo e =
      let (t, next, there) = floods_one s duo (ground (arith, e)) in
      let longer : length (t.hub.chans a.id).queue ≡ length (s.hub.chans a.id).queue + 1 =
        rw there (ground (arith, length-append (s.hub.chans a.id).queue (d ∷ []))) in
      floods n t next (omega (arith, longer, e))

  -- From a state with just the two clients one is reached in which no more fits into the channel.
  pub fills : (s : System) → Duo s → (t : System) × Duo t × (has_room t.hub a.id ≡ false)
  fills s (r, k) =
      let (few, _) = Run-Flows codec p g s r a.id in
      floods (send_capacity - length (s.hub.chans a.id).queue) s (r, k) (omega (arith, few))
