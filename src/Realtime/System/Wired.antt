-- ===== src/Realtime/System/Wired.antt =====
-- internal/realtime: in every state of the server the hub is sound, and a connection that is not
-- registered yet has a channel of its own that is open.
use fileflow.Common.{
  All, Bool-cases, List, [], arith, false, inl, inr, map, nat_beq, refl, some, subst, sym, true,
  true_is_not_false, ℕ, ◌<◌, ◌∙◌, ◌∷◌, ◌≡◌, ◌≢◌, ◌≤◌, bytes_key, nat_key,
}
use fileflow.Realtime.Events.{Codec}
use fileflow.Realtime.Hub.{Hub, member, on_register, on_stop, on_unregister, remove}
use fileflow.Realtime.Client.{Client}
use fileflow.Realtime.Hub.Delivery.{IsOpen, IsUnique}
use fileflow.Realtime.Hub.Soundness.{
  IsSound, Keeps, close_loop-total, dropped, joined, on_register-Keeps, on_unregister-Keeps,
}
use fileflow.Realtime.System.{System}

-- A client that the hub has never had.
abbrev pub IsNew : Hub → ℕ → Type 0
IsNew h j = IsOpen h j × (member j h.clients ≡ false)

abbrev pub ids : List Client → List ℕ
ids cs = map (λ (c : Client). c.id) cs

pub record IsWired (s : System) : Type 0 where
  pub sound : IsSound s.hub
  pub unborn : (j : ℕ) → s.next_id ≤ j → IsNew s.hub j
  pub waiting : All (IsNew s.hub) (ids s.joining)
  pub distinct : IsUnique (ids s.joining)
  pub below : All (λ j. j < s.next_id) (ids s.joining)

pub Keeps-IsNew : (h h' : Hub) (j : ℕ) → Keeps h h' → IsNew h j → IsNew h' j
Keeps-IsNew h h' j (same, closed) (o, out) = (closed j ∙ o, rw same out)

pub map-All {ℓ κ} :
    {P : ℕ → Type ℓ} {Q : ℕ → Type κ} (cs : List ℕ) → ((j : ℕ) → P j → Q j) → All P cs → All Q cs
map-All [] f h = tt
map-All (c ∷ cs) f (p, h) = (f c p, map-All cs f h)

member-remove : (j c : ℕ) (cs : List ℕ) → member j cs ≡ false → member j (remove c cs) ≡ false
unfolding member remove
member-remove j c [] e = refl
member-remove j c (i ∷ cs) e = ground (arith, e, member-remove j c cs)

IsNew-dropped : (h : Hub) (c j : ℕ) → member c h.clients ≡ true → IsNew h j → IsNew (dropped h c) j
IsNew-dropped h c j m (o, out) = elim (Bool-cases (nat_beq j c)) [
  | inl same ↦ let q : j ≡ c = ground arith in absurd (true_is_not_false (sym m ∙ (rw q at out)))
  | inr other ↦ (rw other o, member-remove j c h.clients out)
]

-- A hub in which the other clients that are new stay new.
abbrev pub Spares : Hub → Hub → Type 0
Spares h h' = (j : ℕ) → IsNew h j → IsNew h' j

module _ (codec : Codec) where
  pub on_unregister-Spares :
      (h h' : Hub) (c now : ℕ)
      → IsSound h
      → on_unregister codec h c now ≡ some h'
      → IsSound h' × Spares h h'
  on_unregister-Spares h h' c now s e =
      let (g, f, k, sound) = on_unregister-Keeps codec h c now s in
      let same : g ≡ h' = cc in
      (
        subst IsSound same sound,
        λ j new.
            subst (λ x. IsNew x j) same
              (elim (Bool-cases (member c h.clients)) [
                | inl found ↦
                    Keeps-IsNew (dropped h c) g j (rw found at k) (IsNew-dropped h c j found new)
                | inr missing ↦ Keeps-IsNew h g j (rw missing at k) new
              ]),
      )

  pub on_register-Spares :
      (h h' : Hub) (c now : ℕ)
      → IsNew h c
      → IsSound h
      → on_register codec h c now ≡ some h'
      → IsSound h' × ((j : ℕ) → j ≢ c → IsNew h j → IsNew h' j)
  unfolding member
  on_register-Spares h h' c now (o, out) s e =
      let (g, f, k, sound) = on_register-Keeps codec h c now o s in
      let same : g ≡ h' = cc in
      (
        subst IsSound same sound,
        λ j n (p, q).
            subst (λ x. IsNew x j) same
              (Keeps-IsNew (joined h c) g j k (p, rw out (ground (arith, n, q)))),
      )

pub on_stop-Spares : (h h' : Hub) → IsSound h → on_stop h ≡ some h' → IsSound h' × Spares h h'
unfolding on_stop member
on_stop-Spares h h' s e =
    let (g, f, none_left, shut) = close_loop-total h.clients h s.unique s.all_open in
    let same : g ≡ h' = cc in
    (
      subst IsSound same (record { unique = rw none_left tt; all_open = rw none_left tt }),
      λ j (o, out). subst (λ x. IsNew x j) same (shut j ∙ rw (out, o) refl, rw none_left refl),
    )

pub map2-All {ℓ κ μ} :
    {P : ℕ → Type ℓ} {Q : ℕ → Type κ} {R : ℕ → Type μ} (cs : List ℕ)
    → ((j : ℕ) → P j → Q j → R j)
    → All P cs
    → All Q cs
    → All R cs
map2-All [] f h g = tt
map2-All (c ∷ cs) f (p, h) (q, g) = (f c p q, map2-All cs f h g)
