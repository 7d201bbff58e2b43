-- ===== src/Realtime/System/Effect.antt =====
-- internal/realtime: what a step does to the channels, and to the `WritePump`s.
use fileflow.Common.{
  All, All-middle, Bool-cases, arith, inl, inr, nat_beq, refl, subst, subst₂, sym, ℕ, ◌++◌, ◌≡◌,
  ◌⊎◌, bytes_key, nat_key,
}
use fileflow.Realtime.Events.{Codec}
use fileflow.Realtime.Hub.{Chan, Hub, on_stop, set_chan}
use fileflow.Realtime.Hub.Queues.{
  Grows, Grows-refl, GrowsChan, GrowsChan-same, close_loop-Grows, on_register-Grows,
  on_unregister-Grows,
}
use fileflow.Realtime.Client.Handled.{handle_message-Handled}
use fileflow.Realtime.System.{
  Move, Pump, System, Writes, admits, drops, hangs_up, reads, registers, reorders, set_pump, stops,
  unregisters, writes,
}
use fileflow.Realtime.System.Wired.{IsNew, IsWired, ids}
use fileflow.Realtime.System.Reach.{ids-append, pending-IsSound}

-- A `WritePump` makes one of its actions on its own channel, or the channels only grow.
abbrev pub Effect : System → System → Type 0
Effect s s' =
    (Grows s.hub s'.hub × (s'.pumps ≡ s.pumps))
    ⊎ ((c : ℕ) × (p : Pump) × (ch : Chan) × Writes (s.pumps c) (s.hub.chans c) p ch
        × (s'.hub ≡ set_chan s.hub c ch)
        × (s'.pumps ≡ set_pump s.pumps c p))

grows : (s t s' : System) → s' ≡ t → t.pumps ≡ s.pumps → Grows s.hub t.hub → Effect s s'
grows s t s' e same k = subst (Effect s) (sym e) (inl (k, same))

pub Move-Effect : (codec : Codec) (s s' : System) → Move codec s s' → IsWired s → Effect s s'
unfolding on_stop
Move-Effect codec s s' (admits device_id ip limit conns _ e) w =
    grows s _ s' e refl (Grows-refl s.hub)
Move-Effect codec s s' (registers front back c now h _ at f e) w =
    let waiting = subst (λ cs. All (IsNew s.hub) (ids cs)) at w.waiting in
    let new =
      All-middle (IsNew s.hub) (ids front) (ids back) c.id
        (subst (All (IsNew s.hub)) (ids-append front back c) waiting) in
    grows s _ s' e refl (on_register-Grows codec s.hub h c.id now new.0.0 w.sound f)
Move-Effect codec s s' (reads front back c c' d now h _ f e) w =
    let (_, _, grown) = handle_message-Handled codec c s.hub d now w.sound c' h f in
    grows s _ s' e refl grown
Move-Effect codec s s' (hangs_up front back c _ e) w = grows s _ s' e refl (Grows-refl s.hub)
Move-Effect codec s s' (unregisters front back c now h _ _ f e) w =
    grows s _ s' e refl (on_unregister-Grows codec s.hub h c now w.sound f)
Move-Effect codec s s' (drops front back c now h _ _ f e) w =
    let g : Hub = record (s.hub) { pending = front ++ back } in
    grows s _ s' e refl (on_unregister-Grows codec g h c now (pending-IsSound s.hub _ w.sound) f)
Move-Effect codec s s' (writes c p ch step e) w =
    subst (Effect s) (sym e) (inr (c, p, ch, step, refl, refl))
Move-Effect codec s s' (reorders cs u same e) w = grows s _ s' e refl (Grows-refl s.hub)
Move-Effect codec s s' (stops h _ f e) w =
    grows s _ s' e refl (close_loop-Grows s.hub.clients s.hub h f)

-- What growing channels and the actions of a `WritePump` do to every client is done by every step.
pub Effect-cases :
    (R : Pump → Chan → Pump → Chan → Type 0)
    → ((p : Pump) (ch ch' : Chan) → GrowsChan ch ch' → R p ch p ch')
    → ((p p' : Pump) (ch ch' : Chan) → Writes p ch p' ch' → R p ch p' ch')
    → (s s' : System) → Effect s s'
    → (j : ℕ) → R (s.pumps j) (s.hub.chans j) (s'.pumps j) (s'.hub.chans j)
Effect-cases R grown written s s' (inl (k, e)) j =
    subst (λ pumps. R (s.pumps j) (s.hub.chans j) (pumps j) (s'.hub.chans j)) (sym e)
      (grown (s.pumps j) (s.hub.chans j) (s'.hub.chans j) (k j))
Effect-cases R grown written s s' (inr (c, p, ch, step, a, e)) j =
    subst₂ (λ (h : Hub) pumps. R (s.pumps j) (s.hub.chans j) (pumps j) (h.chans j)) (sym a) (sym e)
      (elim (Bool-cases (nat_beq j c)) [
        | inl same ↦
            let q : j ≡ c = ground arith in
            rw (same, q) (written (s.pumps c) p (s.hub.chans c) ch step)
        | inr other ↦ rw other (
            grown (s.pumps j) (s.hub.chans j) (s.hub.chans j)
              (GrowsChan-same (s.hub.chans j) (s.hub.chans j) refl))
      ])
