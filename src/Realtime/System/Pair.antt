-- ===== src/Realtime/System/Pair.antt =====
-- internal/realtime: two connections that the server takes in, and one that never reads.
use fileflow.Common.{
  Bytes, List, [], ap, arith, if◌then◌else◌, length, refl, true, ℕ, ℤ, ◌+◌, ◌<◌, ◌∙◌, ◌∷◌, ◌≡◌, ◌≤◌,
  bytes_key, nat_key,
}
use fileflow.Limit.{ConnLimiter, increment}
use fileflow.Realtime.Events.{Codec}
use fileflow.Realtime.Client.{Client, new_client}
use fileflow.Realtime.Hub.Soundness.{on_register-Keeps}
use fileflow.Limit.Counts.{increment_lem}
use fileflow.Realtime.System.{Run, System, admits, after_admission, and_then, new_system, registers}
use fileflow.Realtime.System.Wired.{ids}
use fileflow.Realtime.System.Reach.{Run-IsWired}
use fileflow.Realtime.System.Slots.{Run-HasSlots, count_ip}

-- A server that runs, with these clients read and none on its way in or out.
pub record IsServing (served : List Client) (s : System) : Type 0 where
  pub running : s.running ≡ true
  pub joining : s.joining ≡ []
  pub leaving : s.leaving ≡ []
  pub readers : s.readers ≡ served
  pub clients : s.hub.clients ≡ ids served
  pub next_id : s.next_id ≡ length served

unfoldable pub Reaches : Codec → ℕ → ℕ → (System → Type 0) → Type 0
Reaches codec p g P = (s : System) × Run codec (new_system p g) s × P s

-- There is a slot while there are fewer connections than both limits.
may_admit :
    (codec : Codec) (p g : ℕ) (s : System) (ip : Bytes)
    → Run codec (new_system p g) s
    → length s.joining + length s.readers < g
    → count_ip ip s.joining + count_ip ip s.readers < p
    → (conns : ConnLimiter) × (increment s.conns ip ≡ (true, conns))
may_admit codec p g s ip r total own =
    let (k, _, _) = Run-HasSlots codec p g s r in
    let (free, _, _) = increment_lem s.conns ip ip in
    let taken : (increment s.conns ip).0 ≡ true =
      free.1 (omega (arith, k.total, k.global, total), omega (arith, k.each ip, k.per_ip, own)) in
    ((increment s.conns ip).1, λ i. (taken i, (increment s.conns ip).1))

count_ip-le : (ip : Bytes) (cs : List Client) → count_ip ip cs ≤ length cs
count_ip-le ip [] = omega arith
count_ip-le ip (c ∷ cs) = ground (arith, count_ip-le ip cs)

-- One more connection is admitted and registered.
pub joins :
    (codec : Codec) (p g : ℕ) (s : System) (readers : List Client) (device_id ip : Bytes)
    (limit : ℤ)
    → Run codec (new_system p g) s
    → IsServing readers s
    → length readers < p
    → length readers < g
    → Reaches codec p g (IsServing (new_client (length readers) device_id ip limit ∷ readers))
unfolding Reaches new_client
joins codec p g s readers device_id ip limit r k few free =
    let own : count_ip ip s.joining + count_ip ip s.readers < p =
      rw (k.joining, k.readers) (omega (arith, few, count_ip-le ip readers)) in
    let (conns, e) =
      may_admit codec p g s ip r (rw (k.joining, k.readers) (omega (arith, free))) own in
    let t : System = after_admission s conns device_id ip limit in
    let c : Client = new_client s.next_id device_id ip limit in
    let r₁ : Run codec (new_system p g) t = and_then r (admits device_id ip limit conns e refl) in
    let w = Run-IsWired codec p g t r₁ in
    let (h, f, kept, sound) = on_register-Keeps codec t.hub c.id 0 w.waiting.0.0 w.sound in
    let u : System = record t { hub = h; joining = s.joining; readers = c ∷ t.readers } in
    let r₂ : Run codec (new_system p g) u =
      and_then r₁ (registers [] s.joining c 0 h k.running refl f refl) in
    (
      u,
      r₂,
      record {
        running = k.running;
        joining = k.joining;
        leaving = k.leaving;
        readers = λ i. new_client (k.next_id i) device_id ip limit ∷ k.readers i;
        clients =
            kept.0
            ∙ ap (λ b. if b then s.hub.clients else s.next_id ∷ s.hub.clients) w.waiting.0.1
            ∙ (λ i. k.next_id i ∷ k.clients i);
        next_id = rw k.next_id (omega arith);
      },
    )
