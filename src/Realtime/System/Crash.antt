-- ===== src/Realtime/System/Crash.antt =====
-- internal/realtime: a way on which the server comes to send on a closed channel.
use mathlib.Core.List.{append_assoc}
use fileflow.Common.{
  Bool-cases, Bytes, List, [], ap, arith, false, inl, inr, none, refl, some, sym, true, ℕ, ℤ, ◌++◌,
  ◌/◌, ◌==◌, ◌∙◌, ◌∷◌, ◌≡◌, ◌≢◌, ◌≤◌, bytes_key, nat_key,
}
use fileflow.Realtime.Events.{Codec, CodecLaws, Event, event_msg_start, event_presence, get_msg_id}
use fileflow.Realtime.Hub.{
  Hub, broadcast_presence, close_chan, has_peer, member, new_hub, on_unregister, online_count,
  remove,
}
use fileflow.Realtime.Hub.Delivery.{IsOpen, broadcast-Broadcasts, has_room, member-All, overflow}
use fileflow.Realtime.Hub.Soundness.{IsSound, dropped, dropped-IsSound, on_unregister-Keeps}
use fileflow.Limit.{decrement}
use fileflow.Realtime.Client.{Client, handle_message, new_client}
use fileflow.Realtime.Client.Crash.{handle_message_panics}
use fileflow.Realtime.System.{
  Run, System, and_then, at_start, drops, hangs_up, new_system, unregisters,
}
use fileflow.Realtime.System.Reach.{Run-IsWired, pending-IsSound}
use fileflow.Realtime.System.Pair.{IsServing, Reaches, joins}
use fileflow.Realtime.System.Flood.{Duo, IsAck, fills}

overflow-member :
    (h : Hub) (cs : List ℕ) (c : ℕ)
    → member c cs ≡ true
    → has_room h c ≡ false
    → (front : List ℕ) × (back : List ℕ) × (overflow h none cs ≡ front ++ c ∷ back)
unfolding member overflow
overflow-member h [] c m full = cc
overflow-member h (j ∷ cs) c m full = elim (Bool-cases (j == c)) [
  | inl same ↦ let q : j ≡ c = ground arith in ([], overflow h none cs, rw (q, full) refl)
  | inr other ↦
      let (front, back, e) = overflow-member h cs c (rw other at m) full in
      elim (Bool-cases (has_room h j)) [
        | inl room ↦ (front, back, rw room e)
        | inr stuck ↦ (j ∷ front, back, rw stuck (ap (◌∷◌ j) e))
      ]
]

module _ (codec : Codec) (laws : CodecLaws codec) where
  -- A client whose channel is full when the others are told who is online is to be unregistered.
  presence-overflow :
      (h : Hub) (now c : ℕ)
      → IsSound h
      → member c h.clients ≡ true
      → has_room h c ≡ false
      → (h' : Hub) × (front : List ℕ) × (back : List ℕ) × (broadcast_presence codec h now ≡ some h')
        × (h'.pending ≡ front ++ c ∷ back)
        × (h'.clients ≡ h.clients)
  unfolding broadcast_presence
  presence-overflow h now c s m full =
      let (d, done) = laws.marshal_presence event_presence (online_count h) 2 (now / 1_000_000) in
      let (h', e, b) = broadcast-Broadcasts h d none s.all_open s.unique in
      let (front, back, q) = overflow-member h h.clients c m full in
      (
        h',
        h.pending ++ front,
        back,
        rw (done, broadcast_presence) e,
        b.pending ∙ ap (◌++◌ h.pending) q ∙ sym (append_assoc h.pending front (c ∷ back)),
        b.clients,
      )

  leaves-overflow :
      (h : Hub) (a b now : ℕ)
      → IsSound h
      → a ≢ b
      → h.clients ≡ b ∷ a ∷ []
      → has_room h a ≡ false
      → (h' : Hub) × (front : List ℕ) × (back : List ℕ) × (on_unregister codec h b now ≡ some h')
        × (h'.pending ≡ front ++ a ∷ back)
        × (h'.clients ≡ a ∷ [])
  unfolding on_unregister close_chan member remove
  leaves-overflow h a b now s distinct two full =
      let found : member b h.clients ≡ true = rw two (ground arith) in
      let open_b : IsOpen h b = member-All (IsOpen h) b h.clients s.all_open found in
      let left : remove b h.clients ≡ a ∷ [] = rw two (ground arith) in
      let (h', front, back, e, p, q) =
        presence-overflow (dropped h b) now a (dropped-IsSound h b s) (rw left (ground arith))
          (ground (arith, distinct, full)) in
      (h', front, back, rw (found, on_unregister, open_b) e, p, q ∙ left)

-- Bytes that are read as the start of a message.
pub record IsStart (codec : Codec) (d : Bytes) : Type 0 where
  pub event : Event
  pub parsed : codec.unmarshal d ≡ some event
  pub kind : event.kind ≡ event_msg_start
  pub named : get_msg_id event ≢ []

new_system-IsServing : (p g : ℕ) → IsServing [] (new_system p g)
unfolding new_hub
new_system-IsServing p g = record {
  running = refl;
  joining = refl;
  leaving = refl;
  readers = refl;
  clients = refl;
  next_id = refl;
}

abbrev pub Crashes : Codec → ℕ → ℕ → Bytes → Type 0
Crashes codec p g d =
    (s : System) × Run codec (new_system p g) s
    × (s.running ≡ true)
    × ((c : Client) × (s.readers ≡ c ∷ [])
        × ((now : ℕ) → handle_message codec c s.hub d now ≡ none))

module _ (codec : Codec) (laws : CodecLaws codec) (p g : ℕ) (a b : Client) (distinct : a.id ≢ b.id)
    (fill begin : Bytes) (fills_up : IsAck codec fill) (begins : IsStart codec begin) where
  -- The client whose channel is full outlives its peer, and goes on.
  Duo-Crashes : (s : System) → Duo codec p g a b distinct fill fills_up s → Crashes codec p g begin
  unfolding has_peer member remove
  Duo-Crashes s duo =
      let (t, (r, k), full) = fills codec p g a b distinct fill fills_up s duo in
      let t₁ : System = record t {
        conns = decrement t.conns b.ip;
        readers = a ∷ [];
        leaving = b.id ∷ t.leaving;
      } in
      let r₁ : Run codec (new_system p g) t₁ = and_then r (hangs_up [] (a ∷ []) b k.readers refl) in
      let sound = (Run-IsWired codec p g t r).sound in
      let (h, front, back, e, waits, one) =
        leaves-overflow codec laws t.hub a.id b.id 0 sound distinct k.clients full in
      let t₂ : System = record t₁ { hub = h; leaving = t.leaving } in
      let r₂ : Run codec (new_system p g) t₂ =
        and_then r₁ (unregisters [] t.leaving b.id 0 h k.running refl e refl) in
      let g₀ : Hub = record h { pending = front ++ back } in
      let sound₀ : IsSound g₀ =
        pending-IsSound h (front ++ back) (Run-IsWired codec p g t₂ r₂).sound in
      let (h₁, e₁, kept, _) = on_unregister-Keeps codec g₀ a.id 0 sound₀ in
      let t₃ : System = record t₂ { hub = h₁ } in
      let r₃ : Run codec (new_system p g) t₃ =
        and_then r₂ (drops front back a.id 0 h₁ k.running waits e₁ refl) in
      let in_set : member a.id g₀.clients ≡ true = rw one (ground arith) in
      let alone : h₁.clients ≡ [] = kept.0 ∙ rw (one) (ground arith) in
      (
        t₃,
        r₃,
        k.running,
        (
          a,
          refl,
          λ now.
              handle_message_panics codec laws a g₀ h₁ begins.event begin 0 now sound₀ in_set e₁
                begins.parsed begins.kind begins.named (rw alone refl),
        ),
      )

-- A server whose limits admit two connections of one address can come to send on a closed channel
-- while it runs, which stops the program. Of two connections, of any devices, one does not take what
-- the other sends it, bytes that are an acknowledgement, until its channel is full; the other hangs
-- up; the hub, which then tells the first who is online, drops it; and the first goes on. In the
-- state that is reached it is the one client left, and its handler panics at any time on given bytes
-- that start a message with an id. There is no clock here: how fast a client may send, and how
-- long a write may take, is left aside.
pub Run-Crashes :
    (codec : Codec) (laws : CodecLaws codec) (p g : ℕ) (device_a ip_a device_b ip_b : Bytes)
    (limit : ℤ) (fill begin : Bytes)
    → 2 ≤ p
    → 2 ≤ g
    → IsAck codec fill
    → IsStart codec begin
    → Crashes codec p g begin
unfolding Reaches new_client
Run-Crashes codec laws p g device_a ip_a device_b ip_b limit fill begin two_p two_g fills_up
      begins =
    let (s, r, k) =
      joins codec p g (new_system p g) [] device_a ip_a limit at_start (new_system-IsServing p g)
        (omega arith) (omega arith) in
    let (t, q, l) =
      joins codec p g s (new_client 0 device_a ip_a limit ∷ []) device_b ip_b limit r k
        (omega arith) (omega arith) in
    Duo-Crashes codec laws p g (new_client 0 device_a ip_a limit) (new_client 1 device_b ip_b limit)
      (λ e. ground arith) fill begin fills_up begins t (q, l)
