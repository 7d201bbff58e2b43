-- ===== src/Realtime/System/Reach.antt =====
-- internal/realtime: the invariant of Wired.antt in every state of the server.
use fileflow.Common.{
  All, All-middle, Bool, Bytes, List, [], ap, arith, refl, some, subst, sym, ℕ, ℤ, ◌++◌, ◌<◌, ◌∙◌,
  ◌∷◌, ◌≡◌, ◌≢◌, bytes_key, nat_key,
}
use fileflow.Limit.{ConnLimiter}
use fileflow.Realtime.Events.{Codec}
use fileflow.Realtime.Hub.{Chan, Hub, member, new_hub, on_register, set_chan}
use fileflow.Realtime.Client.{Client, new_client}
use fileflow.Realtime.Hub.Soundness.{IsSound, Keeps, Keeps-IsSound}
use fileflow.Realtime.System.{
  Move, Pump, Run, System, Writes, admits, after_admission, and_then, at_start, counts, drains,
  drops, flushes, flushes_not, hangs_up, new_system, opens_no_writer, pings, pings_not, reads,
  registers, reorders, sees_close, stops, takes_first, unregisters, writes,
}
use fileflow.Realtime.System.Wired.{
  IsNew, IsWired, Keeps-IsNew, Spares, ids, map-All, map2-All, on_register-Spares, on_stop-Spares,
  on_unregister-Spares,
}
use fileflow.Realtime.Client.Handled.{handle_message-Handled}
use fileflow.Realtime.Hub.Delivery.{IsUnique}
use fileflow.Realtime.Hub.Safety.{new_hub-IsSound, reorders-IsSound}

pub ids-append :
    (front back : List Client) (c : Client) → ids (front ++ c ∷ back) ≡ ids front ++ c.id ∷ ids back
ids-append [] back c = refl
ids-append (x ∷ front) back c = ap (◌∷◌ x.id) (ids-append front back c)

ids-without : (front back : List Client) → ids (front ++ back) ≡ ids front ++ ids back
ids-without [] back = refl
ids-without (x ∷ front) back = ap (◌∷◌ x.id) (ids-without front back)

IsUnique-middle :
    (xs ys : List ℕ) (x : ℕ)
    → IsUnique (xs ++ x ∷ ys)
    → IsUnique (xs ++ ys) × All (λ j. j ≢ x) (xs ++ ys)
IsUnique-middle [] ys x (f, u) = (u, f)
IsUnique-middle (a ∷ xs) ys x (f, u) =
    let (v, g) = IsUnique-middle xs ys x u in
    let (n, f') = All-middle (λ j. j ≢ a) xs ys x f in ((f', v), ((λ e. n (sym e)), g))

Writes-closed : (p p' : Pump) (ch ch' : Chan) → Writes p ch p' ch' → ch'.closed ≡ ch.closed
Writes-closed p p' ch ch' (takes_first m ms _ _ _ e) = ap (λ (x : Chan). x.closed) e
Writes-closed p p' ch ch' (opens_no_writer m _ _ e) = ap (λ (x : Chan). x.closed) e
Writes-closed p p' ch ch' (sees_close _ _ _ _ e) = ap (λ (x : Chan). x.closed) e
Writes-closed p p' ch ch' (counts m _ _ e) = ap (λ (x : Chan). x.closed) e
Writes-closed p p' ch ch' (drains n written m ms _ _ _ e) = ap (λ (x : Chan). x.closed) e
Writes-closed p p' ch ch' (flushes written _ _ e) = ap (λ (x : Chan). x.closed) e
Writes-closed p p' ch ch' (flushes_not written _ _ e) = ap (λ (x : Chan). x.closed) e
Writes-closed p p' ch ch' (pings _ _ e) = ap (λ (x : Chan). x.closed) e
Writes-closed p p' ch ch' (pings_not _ _ e) = ap (λ (x : Chan). x.closed) e

set_chan-Keeps :
    (h : Hub) (c : ℕ) (ch : Chan) → ch.closed ≡ (h.chans c).closed → Keeps h (set_chan h c ch)
set_chan-Keeps h c ch e = (refl, λ j. ground (arith, e))

-- Only the hub has changed.
hub-IsWired :
    (s : System) (h : Hub) → IsWired s → IsSound h × Spares s.hub h → IsWired (record s { hub = h })
hub-IsWired s h w (sound, spares) = record {
  sound = sound;
  unborn = λ j le. spares j (w.unborn j le);
  waiting = map-All (ids s.joining) spares w.waiting;
  distinct = w.distinct;
  below = w.below;
}

Keeps-IsWired : (s : System) (h : Hub) → IsWired s → Keeps s.hub h → IsWired (record s { hub = h })
Keeps-IsWired s h w k =
    hub-IsWired s h w (Keeps-IsSound s.hub h k w.sound, λ j new. Keeps-IsNew s.hub h j k new)

admits-IsWired :
    (s : System) (conns : ConnLimiter) (device_id ip : Bytes) (limit : ℤ)
    → IsWired s
    → IsWired (after_admission s conns device_id ip limit)
unfolding new_client
admits-IsWired s conns device_id ip limit w = record {
  sound = w.sound;
  unborn = λ j le. w.unborn j (omega (arith, le));
  waiting = (w.unborn s.next_id (omega arith), w.waiting);
  distinct = (map-All (ids s.joining) (λ j lt e. ground (arith, lt, e)) w.below, w.distinct);
  below = (omega arith, map-All (ids s.joining) (λ j lt. omega (arith, lt)) w.below);
}

registers-IsWired :
    (codec : Codec) (s : System) (front back : List Client) (c : Client) (now : ℕ) (h : Hub)
    → s.joining ≡ front ++ c ∷ back
    → on_register codec s.hub c.id now ≡ some h
    → IsWired s
    → IsWired (record s { hub = h; joining = front ++ back; readers = c ∷ s.readers })
registers-IsWired codec s front back c now h at e w =
    let q : ids s.joining ≡ ids front ++ c.id ∷ ids back = ap ids at ∙ ids-append front back c in
    let (new, others) =
      All-middle (IsNew s.hub) (ids front) (ids back) c.id
        (subst (All (IsNew s.hub)) q w.waiting) in
    let (unique, apart) =
      IsUnique-middle (ids front) (ids back) c.id (subst IsUnique q w.distinct) in
    let (old, below) =
      All-middle (λ j. j < s.next_id) (ids front) (ids back) c.id
        (subst (All (λ j. j < s.next_id)) q w.below) in
    let (sound, spares) = on_register-Spares codec s.hub h c.id now new w.sound e in
    let r = ids-without front back in
    record {
      sound = sound;
      unborn = λ j le. spares j (λ same. ground (arith, le, old, same)) (w.unborn j le);
      waiting = rw r (map2-All (ids front ++ ids back) spares apart others);
      distinct = rw r unique;
      below = rw r below;
    }

pub pending-IsSound :
    (h : Hub) (waiting : List ℕ) → IsSound h → IsSound (record h { pending = waiting })
pending-IsSound h waiting s = record { unique = s.unique; all_open = s.all_open }

-- The hub and who waits for it are as they were.
same-IsWired :
    (s : System) (running : Bool) (conns : ConnLimiter) (readers : List Client) (leaving : List ℕ)
    (pumps : ℕ → Pump)
    → IsWired s
    → IsWired (record s {
      running = running;
      conns = conns;
      readers = readers;
      leaving = leaving;
      pumps = pumps;
    })
same-IsWired s running conns readers leaving pumps w = record {
  sound = w.sound;
  unborn = w.unborn;
  waiting = w.waiting;
  distinct = w.distinct;
  below = w.below;
}

pub Move-IsWired : (codec : Codec) (s s' : System) → Move codec s s' → IsWired s → IsWired s'
Move-IsWired codec s s' (admits device_id ip limit conns _ e) w =
    subst IsWired (sym e) (admits-IsWired s conns device_id ip limit w)
Move-IsWired codec s s' (registers front back c now h _ at f e) w =
    subst IsWired (sym e) (registers-IsWired codec s front back c now h at f w)
Move-IsWired codec s s' (reads front back c c' d now h _ f e) w =
    let (_, k, _) = handle_message-Handled codec c s.hub d now w.sound c' h f in
    subst IsWired (sym e) (same-IsWired _ _ _ _ _ _ (Keeps-IsWired s h w k))
Move-IsWired codec s s' (hangs_up front back c _ e) w =
    subst IsWired (sym e) (same-IsWired s _ _ _ _ _ w)
Move-IsWired codec s s' (unregisters front back c now h _ _ f e) w = subst IsWired (sym e) (
    same-IsWired _ _ _ _ _ _
      (hub-IsWired s h w (on_unregister-Spares codec s.hub h c now w.sound f)))
Move-IsWired codec s s' (drops front back c now h _ _ f e) w =
    let g : Hub = record (s.hub) { pending = front ++ back } in
    subst IsWired (sym e)
      (hub-IsWired s h w (on_unregister-Spares codec g h c now (pending-IsSound s.hub _ w.sound) f))
Move-IsWired codec s s' (writes c p ch step e) w =
    let k = set_chan-Keeps s.hub c ch (Writes-closed (s.pumps c) p (s.hub.chans c) ch step) in
    subst IsWired (sym e) (same-IsWired _ _ _ _ _ _ (Keeps-IsWired s (set_chan s.hub c ch) w k))
Move-IsWired codec s s' (reorders cs u same e) w = subst IsWired (sym e) (
    hub-IsWired s (record (s.hub) { clients = cs }) w
      (reorders-IsSound s.hub cs u same w.sound, λ j (o, out). (o, same j ∙ out)))
Move-IsWired codec s s' (stops h _ f e) w =
    subst IsWired (sym e)
      (same-IsWired _ _ _ _ _ _ (hub-IsWired s h w (on_stop-Spares s.hub h w.sound f)))

new_system-IsWired : (p g : ℕ) → IsWired (new_system p g)
unfolding new_hub member
new_system-IsWired p g = record {
  sound = new_hub-IsSound;
  unborn = λ j le. (refl, refl);
  waiting = tt;
  distinct = tt;
  below = tt;
}

pub Run-IsWired : (codec : Codec) (p g : ℕ) (s : System) → Run codec (new_system p g) s → IsWired s
Run-IsWired codec p g s at_start = new_system-IsWired p g
Run-IsWired codec p g s (and_then r m) = Move-IsWired codec _ s m (Run-IsWired codec p g _ r)
