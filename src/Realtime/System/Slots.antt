-- ===== src/Realtime/System/Slots.antt =====
-- internal/realtime with internal/limit/limiter.go: the counters of connections and the connections
-- that there are.
use fileflow.Common.{
  Bool, Bytes, List, [], ap, arith, bytes_beq_iff, false, length, lookup, ltb, refl, subst, sym,
  true, ℕ, ℤ, ◌++◌, ◌+◌, ◌==◌, ◌∙◌, ◌∷◌, ◌≡◌, ◌≤◌, bytes_key, nat_key,
}
use fileflow.Limit.{ConnLimiter, count_of, decrement, increment, new_conn_limiter}
use fileflow.Realtime.Hub.{Hub, set_chan}
use fileflow.Realtime.Client.{Client, new_client}
use fileflow.Limit.Counts.{
  IsConsistent, count_of-le, decrement-IsConsistent, decrement_lem, increment-IsConsistent,
  increment_lem, new_conn_limiter-IsConsistent, one_if,
}
use fileflow.Realtime.System.{
  Move, Pump, Run, System, admits, after_admission, and_then, at_start, drops, hangs_up, new_system,
  reads, registers, reorders, set_pump, stops, unregisters, writes,
}
use fileflow.Realtime.Events.{Codec}
use fileflow.Realtime.Client.Handled.{handle_message-Handled}
use fileflow.Realtime.System.Wired.{IsWired}
use fileflow.Realtime.System.Reach.{Run-IsWired}

-- How many of the connections come from an address.
abbrev pub count_ip : Bytes → List Client → ℕ
count_ip ip [] = 0
count_ip ip (c ∷ cs) = one_if (c.ip == ip) + count_ip ip cs

count_ip-middle :
    (ip : Bytes) (front back : List Client) (c : Client)
    → count_ip ip (front ++ c ∷ back) ≡ one_if (c.ip == ip) + count_ip ip (front ++ back)
count_ip-middle ip [] back c = refl
count_ip-middle ip (x ∷ front) back c = omega (arith, count_ip-middle ip front back c)

length-middle :
    (front back : List Client) (c : Client)
    → length (front ++ c ∷ back) ≡ length (front ++ back) + 1
length-middle [] back c = omega arith
length-middle (x ∷ front) back c = omega (arith, length-middle front back c)

-- Every connection holds one slot from its admission to the end of its read loop, and no other slot
-- is taken; the limits are kept.
pub record HasSlots (max_per_ip max_global : ℕ) (s : System) : Type 0 where
  pub consistent : IsConsistent s.conns
  pub per_ip : s.conns.max_per_ip ≡ max_per_ip
  pub global : s.conns.max_global ≡ max_global
  pub total : s.conns.total_count ≡ length s.joining + length s.readers
  pub each :
      (ip : Bytes) → count_of s.conns.ip_counts ip ≡ count_ip ip s.joining + count_ip ip s.readers

increment_limits :
    (l : ConnLimiter) (ip : Bytes)
    → ((increment l ip).1.max_per_ip ≡ l.max_per_ip)
      × ((increment l ip).1.max_global ≡ l.max_global)
unfolding increment
increment_limits l ip = ground arith

decrement_limits :
    (l : ConnLimiter) (ip : Bytes)
    → ((decrement l ip).max_per_ip ≡ l.max_per_ip) × ((decrement l ip).max_global ≡ l.max_global)
unfolding decrement
decrement_limits l ip = ground arith

module _ (p g : ℕ) (s : System) (slots : HasSlots p g s) where
  -- The connections are the same but for their order and what their clients have under way.
  same-HasSlots :
      (joining readers : List Client)
      → length joining + length readers ≡ length s.joining + length s.readers
      → ((ip : Bytes)
          → count_ip ip joining + count_ip ip readers
            ≡ count_ip ip s.joining + count_ip ip s.readers)
      → HasSlots p g (record s { joining = joining; readers = readers })
  same-HasSlots joining readers n k = record {
    consistent = slots.consistent;
    per_ip = slots.per_ip;
    global = slots.global;
    total = slots.total ∙ sym n;
    each = λ ip. slots.each ip ∙ sym (k ip);
  }

  other-HasSlots :
      (hub : Hub) (running : Bool) (leaving : List ℕ) (pumps : ℕ → Pump)
      → HasSlots p g (record s { hub = hub; running = running; leaving = leaving; pumps = pumps })
  other-HasSlots hub running leaving pumps = record {
    consistent = slots.consistent;
    per_ip = slots.per_ip;
    global = slots.global;
    total = slots.total;
    each = slots.each;
  }

  admits-HasSlots :
      (conns : ConnLimiter) (device_id ip : Bytes) (limit : ℤ)
      → increment s.conns ip ≡ (true, conns)
      → HasSlots p g (after_admission s conns device_id ip limit)
  unfolding new_client
  admits-HasSlots conns device_id ip limit e =
      let taken : (increment s.conns ip).0 ≡ true = ap (λ x. x.0) e in
      let same : (increment s.conns ip).1 ≡ conns = ap (λ x. x.1) e in
      let (per_ip, global) = increment_limits s.conns ip in
      record {
        consistent = subst IsConsistent same (increment-IsConsistent s.conns ip slots.consistent);
        per_ip = ap (λ (l : ConnLimiter). l.max_per_ip) (sym same) ∙ per_ip ∙ slots.per_ip;
        global = ap (λ (l : ConnLimiter). l.max_global) (sym same) ∙ global ∙ slots.global;
        total =
            let (_, _, grown) = increment_lem s.conns ip ip in
            ap (λ (l : ConnLimiter). l.total_count) (sym same)
            ∙ ground (arith, grown, taken, slots.total);
        each = λ j.
            let (_, grown, _) = increment_lem s.conns ip j in
            ap (λ (l : ConnLimiter). count_of l.ip_counts j) (sym same)
            ∙ ground (arith, grown, taken, slots.each j);
      }

  hangs_up-HasSlots :
      (front back : List Client) (c : Client)
      → s.readers ≡ front ++ c ∷ back
      → HasSlots p g (record s { conns = decrement s.conns c.ip; readers = front ++ back })
  hangs_up-HasSlots front back c at =
      let (per_ip, global) = decrement_limits s.conns c.ip in
      let own : count_ip c.ip s.readers ≡ one_if (c.ip == c.ip) + count_ip c.ip (front ++ back) =
        ap (count_ip c.ip) at ∙ count_ip-middle c.ip front back c in
      let held : ltb 0 (count_of s.conns.ip_counts c.ip) ≡ true =
        ground (arith, own, slots.each c.ip, bytes_beq_iff c.ip c.ip) in
      record {
        consistent = decrement-IsConsistent s.conns c.ip slots.consistent;
        per_ip = per_ip ∙ slots.per_ip;
        global = global ∙ slots.global;
        total =
            let (_, fallen) = decrement_lem s.conns c.ip c.ip in
            let n = ap length at ∙ length-middle front back c in
            ground (arith, fallen, held, n, slots.total);
        each = λ j.
            let (fallen, _) = decrement_lem s.conns c.ip j in
            let n = ap (count_ip j) at ∙ count_ip-middle j front back c in
            ground (arith, fallen, held, n, slots.each j);
      }

  registers-HasSlots :
      (front back : List Client) (c : Client)
      → s.joining ≡ front ++ c ∷ back
      → HasSlots p g (record s { joining = front ++ back; readers = c ∷ s.readers })
  registers-HasSlots front back c at =
      same-HasSlots (front ++ back) (c ∷ s.readers)
        (let n = ap length at ∙ length-middle front back c in omega (arith, n))
        (λ ip. let n = ap (count_ip ip) at ∙ count_ip-middle ip front back c in omega (arith, n))

  reads-HasSlots :
      (front back : List Client) (c c' : Client)
      → s.readers ≡ front ++ c ∷ back
      → c'.ip ≡ c.ip
      → HasSlots p g (record s { readers = front ++ c' ∷ back })
  reads-HasSlots front back c c' at same =
      same-HasSlots s.joining (front ++ c' ∷ back)
        (let n = ap length at ∙ length-middle front back c in
          omega (arith, n, length-middle front back c'))
        (λ ip.
          let n = ap (count_ip ip) at ∙ count_ip-middle ip front back c in
          let m : count_ip ip (front ++ c' ∷ back)
              ≡ one_if (c.ip == ip) + count_ip ip (front ++ back) =
            rw (count_ip-middle ip front back c', same) refl in
          omega (arith, n, m))

Move-HasSlots :
    (codec : Codec) (p g : ℕ) (s s' : System)
    → Move codec s s'
    → IsWired s
    → HasSlots p g s
    → HasSlots p g s'
Move-HasSlots codec p g s s' (admits device_id ip limit conns f e) w k =
    subst (HasSlots p g) (sym e) (admits-HasSlots p g s k conns device_id ip limit f)
Move-HasSlots codec p g s s' (registers front back c now h _ at f e) w k =
    subst (HasSlots p g) (sym e) (
      other-HasSlots p g _ (registers-HasSlots p g s k front back c at) h s.running s.leaving
        s.pumps)
Move-HasSlots codec p g s s' (reads front back c c' d now h at f e) w k =
    let ((active, same), _, _) = handle_message-Handled codec c s.hub d now w.sound c' h f in
    let ip : c'.ip ≡ c.ip = ap (λ (x : Client). x.ip) same in
    subst (HasSlots p g) (sym e) (
      other-HasSlots p g _ (reads-HasSlots p g s k front back c c' at ip) h s.running s.leaving
        s.pumps)
Move-HasSlots codec p g s s' (hangs_up front back c at e) w k = subst (HasSlots p g) (sym e) (
    other-HasSlots p g _ (hangs_up-HasSlots p g s k front back c at) s.hub s.running
      (c.id ∷ s.leaving) s.pumps)
Move-HasSlots codec p g s s' (unregisters front back c now h _ _ f e) w k =
    subst (HasSlots p g) (sym e) (other-HasSlots p g s k h s.running (front ++ back) s.pumps)
Move-HasSlots codec p g s s' (drops front back c now h _ _ f e) w k =
    subst (HasSlots p g) (sym e) (other-HasSlots p g s k h s.running s.leaving s.pumps)
Move-HasSlots codec p g s s' (writes c q ch step e) w k =
    subst (HasSlots p g) (sym e)
      (other-HasSlots p g s k (set_chan s.hub c ch) s.running s.leaving (set_pump s.pumps c q))
Move-HasSlots codec p g s s' (reorders cs u same e) w k =
    subst (HasSlots p g) (sym e)
      (other-HasSlots p g s k (record (s.hub) { clients = cs }) s.running s.leaving s.pumps)
Move-HasSlots codec p g s s' (stops h _ f e) w k =
    subst (HasSlots p g) (sym e) (other-HasSlots p g s k h false s.leaving s.pumps)

all-HasSlots :
    (codec : Codec) (p g : ℕ) (s : System) → Run codec (new_system p g) s → HasSlots p g s
unfolding new_conn_limiter count_of lookup
all-HasSlots codec p g s at_start = record {
  consistent = new_conn_limiter-IsConsistent p g;
  per_ip = refl;
  global = refl;
  total = refl;
  each = λ ip. refl;
}
all-HasSlots codec p g s (and_then r m) =
    Move-HasSlots codec p g _ s m (Run-IsWired codec p g _ r) (all-HasSlots codec p g _ r)

-- In every state that a server with these limits can reach, the counters of the limiter are right:
-- the total is the number of connections that wait to be registered or are read, the counter of an
-- address is the number of those that come from it, and neither passes its limit. So each end of a
-- read loop gives back exactly the slot that its connection took.
pub Run-HasSlots :
    (codec : Codec) (p g : ℕ) (s : System)
    → Run codec (new_system p g) s
    → HasSlots p g s
      × (length s.joining + length s.readers ≤ g)
      × ((ip : Bytes) → count_ip ip s.joining + count_ip ip s.readers ≤ p)
Run-HasSlots codec p g s r =
    let k = all-HasSlots codec p g s r in
    (
      k,
      omega (arith, k.total, k.global, k.consistent.within),
      λ ip. omega (arith, k.each ip, k.per_ip, count_of-le s.conns ip k.consistent),
    )
