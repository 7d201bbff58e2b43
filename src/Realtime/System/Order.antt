-- ===== src/Realtime/System/Order.antt =====
-- internal/realtime: how much waits in a channel, and that what was put into it goes out in order.
use mathlib.Core.List.{append-nil, append_assoc}
use fileflow.Common.{
  Bytes, List, [], ap, arith, inl, inr, length, length-append, refl, subst, suc, sym, ℕ, ◌++◌, ◌∙◌,
  ◌∷◌, ◌≡◌, ◌≤◌, ◌⊎◌, bytes_key, nat_key,
}
use fileflow.Realtime.Hub.{Chan, Hub, send_capacity}
use fileflow.Realtime.Hub.Queues.{GrowsChan}
use fileflow.Realtime.System.{
  Phase, Pump, Writes, counts, draining, drains, flushes, flushes_not, idle, opens_no_writer, pings,
  pings_not, received, sees_close, stopped, takes_first,
}
use fileflow.Realtime.Client.Write.{Frame, ping_frame, text_frame}
use fileflow.Realtime.Client.Write.Stream.{lines, lines-append, stream, stream-append}

-- The messages that a `WritePump` in its loop still has to take are there.
abbrev pub Waits : Phase → List Bytes → Type 0
Waits idle queue = Unit
Waits (received m) queue = Unit
Waits (draining n written) queue = n ≤ length queue
Waits stopped queue = Unit

abbrev pub FlowsAt : Pump → Chan → Type 0
FlowsAt p ch = (length ch.queue ≤ send_capacity) × Waits p.phase ch.queue

abbrev pub Flows : Hub → (ℕ → Pump) → Type 0
Flows h pumps = (j : ℕ) → FlowsAt (pumps j) (h.chans j)

Waits-longer :
    (phase : Phase) (queue more : List Bytes) → Waits phase queue → Waits phase (queue ++ more)
Waits-longer idle queue more w = tt
Waits-longer (received m) queue more w = tt
Waits-longer (draining n written) queue more w = omega (arith, w, length-append queue more)
Waits-longer stopped queue more w = tt

pub Grows-FlowsAt : (p : Pump) (ch ch' : Chan) → GrowsChan ch ch' → FlowsAt p ch → FlowsAt p ch'
Grows-FlowsAt p ch ch' ((ms, e), le) (few, w) =
    (le few, subst (Waits p.phase) (sym e) (Waits-longer p.phase ch.queue ms w))

-- A pump whose phase is not `draining` waits for nothing.
settled :
    (p p' : Pump) (ch ch' : Chan)
    → FlowsAt p ch
    → ch' ≡ ch
    → Waits p'.phase ch.queue
    → FlowsAt p' ch'
settled p p' ch ch' (few, _) e w = rw e (few, w)

pub Writes-FlowsAt :
    (p p' : Pump) (ch ch' : Chan) → Writes p ch p' ch' → FlowsAt p ch → FlowsAt p' ch'
Writes-FlowsAt p p' ch ch' (takes_first m ms _ q a e) (few, w) =
    let n : suc (length ms) ≤ send_capacity = (rw q at few) in rw (a, e) (omega (arith, n), tt)
Writes-FlowsAt p p' ch ch' (opens_no_writer m _ a e) f = settled p p' ch ch' f e (rw a tt)
Writes-FlowsAt p p' ch ch' (sees_close _ _ _ a e) f = settled p p' ch ch' f e (rw a tt)
Writes-FlowsAt p p' ch ch' (counts m _ a e) f = settled p p' ch ch' f e (rw a (omega arith))
Writes-FlowsAt p p' ch ch' (drains n written m ms k q a e) (few, w) =
    let left : suc n ≤ suc (length ms) = (rw (k, q) at w) in
    let n' : suc (length ms) ≤ send_capacity = (rw q at few) in
    rw (a, e) (omega (arith, n'), omega (arith, left))
Writes-FlowsAt p p' ch ch' (flushes written _ a e) f = settled p p' ch ch' f e (rw a tt)
Writes-FlowsAt p p' ch ch' (flushes_not written _ a e) f = settled p p' ch ch' f e (rw a tt)
Writes-FlowsAt p p' ch ch' (pings _ a e) f = settled p p' ch ch' f e (rw a tt)
Writes-FlowsAt p p' ch ch' (pings_not _ a e) f = settled p p' ch ch' f e (rw a tt)

-- What has been written to a client, what its `WritePump` holds, and what waits, as one stream in
-- which each message ends with a newline.
abbrev pub held : Phase → Bytes
held idle = []
held (received m) = m ++ 10 ∷ []
held (draining n written) = written ++ 10 ∷ []
held stopped = []

abbrev pub traffic_at : Pump → Chan → Bytes
traffic_at p ch = stream p.frames ++ (held p.phase ++ lines ch.queue)

-- Some messages have come in behind all others, unless an error has ended the `WritePump`, or the
-- close of the channel.
abbrev pub Follows : Pump → Chan → Pump → Chan → Type 0
Follows p ch p' ch' =
    (p'.phase ≡ stopped) ⊎ ((ms : List Bytes) × (traffic_at p' ch' ≡ traffic_at p ch ++ lines ms))

abbrev Steady : Pump → Chan → Pump → Chan → Type 0
Steady p ch p' ch' = traffic_at p' ch' ≡ traffic_at p ch

Steady-Follows : (p p' : Pump) (ch ch' : Chan) → Steady p ch p' ch' → Follows p ch p' ch'
Steady-Follows p p' ch ch' e = inr ([], e ∙ sym (append-nil (traffic_at p ch)))

stopped-Follows :
    (p p' : Pump) (ch ch' : Chan) → p' ≡ record p { phase = stopped } → Follows p ch p' ch'
stopped-Follows p p' ch ch' e = inl (ap (λ (x : Pump). x.phase) e)

-- A frame takes over what was held.
logged :
    (p : Pump) (f : Frame) (phase : Phase) (queue : List Bytes)
    → stream (f ∷ []) ++ held phase ≡ held p.phase
    → stream (p.frames ++ f ∷ []) ++ (held phase ++ lines queue)
      ≡ stream p.frames ++ (held p.phase ++ lines queue)
logged p f phase queue e = rw (stream-append p.frames (f ∷ []), sym e) (simp append_assoc refl)

pub Writes-Follows : (p p' : Pump) (ch ch' : Chan) → Writes p ch p' ch' → Follows p ch p' ch'
Writes-Follows p p' ch ch' (takes_first m ms i q a e) =
    Steady-Follows p p' ch ch' (rw (a, e, i, q) (simp append_assoc refl))
Writes-Follows p p' ch ch' (opens_no_writer m _ a e) = stopped-Follows p p' ch ch' a
Writes-Follows p p' ch ch' (sees_close _ _ _ a e) = inl (ap (λ (x : Pump). x.phase) a)
Writes-Follows p p' ch ch' (counts m i a e) = Steady-Follows p p' ch ch' (rw (a, e, i) refl)
Writes-Follows p p' ch ch' (drains n written m ms i q a e) =
    Steady-Follows p p' ch ch' (rw (a, e, i, q) (simp append_assoc refl))
Writes-Follows p p' ch ch' (flushes written i a e) =
    Steady-Follows p p' ch ch'
      (rw (a, e) (logged p (text_frame written) idle ch.queue (rw i (append-nil _))))
Writes-Follows p p' ch ch' (flushes_not written _ a e) = stopped-Follows p p' ch ch' a
Writes-Follows p p' ch ch' (pings i a e) =
    Steady-Follows p p' ch ch' (rw (a, e) (logged p ping_frame idle ch.queue (rw i refl)))
Writes-Follows p p' ch ch' (pings_not _ a e) = stopped-Follows p p' ch ch' a

pub Grows-Follows : (p : Pump) (ch ch' : Chan) → GrowsChan ch ch' → Follows p ch p ch'
Grows-Follows p ch ch' ((ms, e), _) =
    inr (ms, rw (e, lines-append ch.queue ms) (simp append_assoc refl))

pub Follows-trans :
    (p q r : Pump) (a b c : Chan)
    → (q.phase ≡ stopped → r.phase ≡ stopped)
    → Follows p a q b
    → Follows q b r c
    → Follows p a r c
Follows-trans p q r a b c stays (inl s) f = inl (stays s)
Follows-trans p q r a b c stays (inr f) (inl s) = inl s
Follows-trans p q r a b c stays (inr (ms, e)) (inr (ns, f)) =
    inr (ms ++ ns, f ∙ rw (e, lines-append ms ns) (simp append_assoc refl))

pub Writes-stopped :
    (p p' : Pump) (ch ch' : Chan) → Writes p ch p' ch' → p.phase ≡ stopped → p'.phase ≡ stopped
Writes-stopped p p' ch ch' (takes_first m ms i _ _ _) s = cc
Writes-stopped p p' ch ch' (opens_no_writer m i _ _) s = cc
Writes-stopped p p' ch ch' (sees_close i _ _ _ _) s = cc
Writes-stopped p p' ch ch' (counts m i _ _) s = cc
Writes-stopped p p' ch ch' (drains n written m ms i _ _ _) s = cc
Writes-stopped p p' ch ch' (flushes written i _ _) s = cc
Writes-stopped p p' ch ch' (flushes_not written i _ _) s = cc
Writes-stopped p p' ch ch' (pings i _ _) s = cc
Writes-stopped p p' ch ch' (pings_not i _ _) s = cc
