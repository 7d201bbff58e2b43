-- ===== src/Realtime/Client/Write/Ends.antt =====
-- internal/realtime/client.go, `WritePump`: when the loop ends, and what it leaves.
use mathlib.Core.List.{append-nil}
use fileflow.Common.{
  Bool, Bool-cases, Bytes, List, List-cases, [], ap, arith, false, inl, inr, length, refl, true, ℕ,
  ◌&&◌, ◌++◌, ◌+◌, ◌∙◌, ◌∷◌, ◌≡◌, ◌≤◌, bytes_key, nat_key,
}
use fileflow.Realtime.Client.Write.{
  Frame, Signal, Wire, close_frame, drain, ping_frame, returns, runs, take_turn, takes, ticks,
  write_batch, write_frame, write_pump, write_turn,
}
use fileflow.Realtime.Client.Write.Stream.{
  emptied, stream, stream-append, stream-emptied, traffic, write_batch-sent,
}

-- How often `select` takes the case of the channel.
abbrev pub picks : List Signal → ℕ
picks [] = 0
picks (takes opened flushed ∷ ss) = picks ss + 1
picks (ticks sent ∷ ss) = picks ss

-- The library reports no error.
abbrev pub all_fine : List Signal → Bool
all_fine [] = true
all_fine (takes opened flushed ∷ ss) = opened && flushed && all_fine ss
all_fine (ticks sent ∷ ss) = sent && all_fine ss

-- The turns that a closed channel still needs.
abbrev pub turns_left : List Bytes → ℕ
turns_left [] = 1
turns_left (m ∷ ms) = 2

-- Nothing waits any more, all that waited went out, in order, and the last frame is the close.
pub record Flushed (w w' : Wire) : Type 0 where
  pub empty : w'.chan.queue ≡ []
  pub written : stream w'.frames ≡ traffic w
  pub last : (fs : List Frame) × (w'.frames ≡ fs ++ close_frame ∷ [])

abbrev pub Ends : Wire → List Signal → Type 0
Ends w ss =
    (w' : Wire) × (write_pump w ss ≡ returns w')
    × (w'.connected ≡ false)
    × (all_fine ss ≡ true → Flushed w w')

now-Ends :
    (w w' : Wire) (s : Signal) (ss : List Signal)
    → write_turn w s ≡ returns w'
    → (all_fine (s ∷ ss) ≡ true → Flushed w (record w' { connected = false }))
    → Ends w (s ∷ ss)
unfolding write_pump
now-Ends w w' s ss e f = (record w' { connected = false }, rw (e, write_pump) refl, refl, f)

later-Ends :
    (w v : Wire) (s : Signal) (ss : List Signal)
    → write_turn w s ≡ runs v
    → (all_fine (s ∷ ss) ≡ true → all_fine ss ≡ true)
    → traffic v ≡ traffic w
    → Ends v ss
    → Ends w (s ∷ ss)
unfolding write_pump
later-Ends w v s ss e fine same (w', f, closed, g) = (
  w',
  rw (e, write_pump) f,
  closed,
  λ ok.
      let k = g (fine ok) in record { empty = k.empty; written = k.written ∙ same; last = k.last },
)

traffic-ping : (w : Wire) → traffic (record w { frames = w.frames ++ ping_frame ∷ [] }) ≡ traffic w
traffic-ping w = rw (stream-append w.frames (ping_frame ∷ []), append-nil) refl

traffic-emptied :
    (w : Wire) (m : Bytes) (ms : List Bytes)
    → w.chan.queue ≡ m ∷ ms
    → traffic (emptied w m ms) ≡ traffic w
traffic-emptied w m ms e = rw (stream-emptied w m ms, append-nil, e) refl

close-Flushed :
    (w : Wire)
    → w.chan.queue ≡ []
    → Flushed w (record w { frames = w.frames ++ close_frame ∷ []; connected = false })
close-Flushed w e = record {
  empty = e;
  written = rw (stream-append w.frames (close_frame ∷ []), e) refl;
  last = (w.frames, refl);
}

some_left : (queue : List Bytes) → turns_left queue ≤ 0 → ⊥
some_left [] e = ground arith
some_left (m ∷ ms) e = ground arith

turns_left_le : (queue : List Bytes) → turns_left queue ≤ 2
turns_left_le [] = omega arith
turns_left_le (m ∷ ms) = omega arith

pump-Ends :
    (w : Wire) (ss : List Signal)
    → w.chan.closed ≡ true
    → turns_left w.chan.queue ≤ picks ss
    → Ends w ss
unfolding write_turn write_batch
pump-Ends w [] shut enough = absurd (some_left w.chan.queue enough)
pump-Ends w (ticks true ∷ ss) shut enough =
    later-Ends w _ _ ss refl (λ ok. ok) (traffic-ping w) (pump-Ends _ ss shut enough)
pump-Ends w (ticks false ∷ ss) shut enough = now-Ends w w _ ss refl (λ ok. cc)
pump-Ends w (takes opened flushed ∷ ss) shut enough = elim (List-cases w.chan.queue) [
  | inl empty ↦
      now-Ends w (write_frame w close_frame) _ ss
        (ap (take_turn w opened flushed) empty ∙ rw shut refl) (λ ok. close-Flushed w empty)
  | inr (m, ms, e) ↦ elim (Bool-cases opened) [
    | inr denied ↦
        now-Ends w (record w { chan = record (w.chan) { queue = ms } }) _ ss
          (ap (take_turn w opened flushed) e ∙ rw denied refl) (λ ok. ground (arith, ok, denied))
    | inl ready ↦ elim (Bool-cases flushed) [
      | inr broken ↦
          now-Ends w (record w { chan = record (w.chan) { queue = (drain (length ms) m ms).1 } }) _
            ss (ap (take_turn w opened flushed) e ∙ rw (ready, broken) refl)
            (λ ok. ground (arith, ok, broken))
      | inl out ↦
          let more : 2 ≤ picks ss + 1 = (rw e at enough) in
          let turn : write_turn w (takes opened flushed) ≡ runs (emptied w m ms) =
            ap (take_turn w opened flushed) e ∙ rw (ready, out) (write_batch-sent w m ms) in
          later-Ends w (emptied w m ms) _ ss turn (λ ok. ground arith) (traffic-emptied w m ms e)
            (pump-Ends (emptied w m ms) ss shut (omega (arith, more)))
    ]
  ]
]

-- Once the hub has closed a client's channel, its write loop ends, whatever waits and whatever the
-- library reports, by the second turn in which `select` takes from the channel; it closes
-- the connection. If the library reports no error, then nothing waits any more, the frames
-- bring all the messages that waited, in their order, each ended by a newline, after what
-- had gone out before, and the last frame is the close frame.
pub write_pump_ends :
    (w : Wire) (ss : List Signal)
    → w.chan.closed ≡ true
    → 2 ≤ picks ss
    → (w' : Wire) × (write_pump w ss ≡ returns w')
      × (w'.connected ≡ false)
      × (all_fine ss ≡ true → Flushed w w')
write_pump_ends w ss shut enough =
    pump-Ends w ss shut (omega (arith, turns_left_le w.chan.queue, enough))
