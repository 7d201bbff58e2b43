-- ===== src/Common/Assoc.antt =====
-- Go's `map[K]V` as an association list. The order of the list stands for the order in which
-- `range` would visit the entries, which Go leaves open: theorems hold for every list.
use Prim.Native.Nat.{◌+◌, ◌≤◌}
use mathlib.Core.Path.{◌≡◌, refl, sym, subst}
use mathlib.Core.Logic.{◌≢◌, inl, inr}
use mathlib.Core.Option.{Option, none, some}
use mathlib.Core.List.{List, [], ◌∷◌}
use native.Mathlib.Omega.{arith}
use fileflow.Common.Tests.{Bool-cases, Key, if◌then◌else◌, ◌==◌}
use fileflow.Common.Lists.{All, length}

module _ {ℓ κ} {K : Type ℓ} {V : Type κ} ⦃key : Key K⦄ where
  -- `delete(m, k)`
  unfoldable pub delete : K → List (K × V) → List (K × V)
  delete k [] = []
  delete k ((i, w) ∷ rest) = if i == k then delete k rest else (i, w) ∷ delete k rest

  -- `v, ok := m[k]`
  unfoldable pub lookup : K → List (K × V) → Option V
  lookup k [] = none
  lookup k ((i, w) ∷ rest) = if i == k then some w else lookup k rest

  -- `m[k] = v`
  unfoldable pub put : K → V → List (K × V) → List (K × V)
  put k v [] = (k, v) ∷ []
  put k v ((i, w) ∷ rest) = if i == k then (i, v) ∷ rest else (i, w) ∷ put k v rest

  pub lookup-put :
      (k l : K) (v : V) (m : List (K × V))
      → lookup l (put k v m) ≡ (if k == l then some v else lookup l m)
  unfolding lookup put
  lookup-put k l v [] = refl
  lookup-put k l v ((i, w) ∷ rest) =
      ground (arith, lookup-put k l v rest, key.eqb_iff i l, key.eqb_iff k l, key.eqb_iff i k)

  pub lookup-delete :
      (k j : K) (m : List (K × V)) → lookup j (delete k m) ≡ (if k == j then none else lookup j m)
  unfolding lookup delete
  lookup-delete k j [] = ground arith
  lookup-delete k j ((i, w) ∷ m) =
      ground (arith, key.eqb_iff k j, key.eqb_iff i k, key.eqb_iff i j, lookup-delete k j m)

  pub length-delete-le : (k : K) (m : List (K × V)) → length (delete k m) ≤ length m
  unfolding delete
  length-delete-le k [] = omega arith
  length-delete-le k ((i, w) ∷ m) = ground (arith, length-delete-le k m)

  pub length-put-le : (k : K) (v : V) (m : List (K × V)) → length (put k v m) ≤ length m + 1
  unfolding put
  length-put-le k v [] = omega arith
  length-put-le k v ((i, w) ∷ m) = ground (arith, length-put-le k v m)

  -- What holds of every value still does after an insertion of such a value, and a deletion.
  pub put-All {μ} :
      (P : V → Type μ) (k : K) (v : V) (m : List (K × V))
      → P v
      → All (λ b. P b.1) m
      → All (λ b. P b.1) (put k v m)
  unfolding put
  put-All P k v [] p h = (p, tt)
  put-All P k v ((i, w) ∷ m) p h = ground (arith, put-All P k v m p h.1)

  pub delete-All {μ} :
      (P : V → Type μ) (k : K) (m : List (K × V))
      → All (λ b. P b.1) m
      → All (λ b. P b.1) (delete k m)
  unfolding delete
  delete-All P k [] h = tt
  delete-All P k ((i, w) ∷ m) h = ground (arith, delete-All P k m h.1)

  pub lookup-All {μ} :
      (P : V → Type μ) (k : K) (m : List (K × V)) {v : V}
      → All (λ b. P b.1) m
      → lookup k m ≡ some v
      → P v
  unfolding lookup
  lookup-All P k [] h q = cc
  lookup-All P k ((i, w) ∷ m) {v} h q = elim (Bool-cases (i == k)) [
    | inl same ↦ let x : w ≡ v = ground arith in subst P x h.0
    | inr other ↦ lookup-All P k m h.1 (ground arith)
  ]

-- The keys of a Go map are distinct.
module _ {ℓ κ} {K : Type ℓ} {V : Type κ} where
  abbrev pub IsFresh : K → List (K × V) → Type ℓ
  IsFresh k m = All (λ b. b.0 ≢ k) m

  abbrev pub IsDistinct : List (K × V) → Type ℓ
  IsDistinct [] = Unit
  IsDistinct ((k, v) ∷ m) = IsFresh k m × IsDistinct m

module _ {ℓ κ} {K : Type ℓ} {V : Type κ} ⦃key : Key K⦄ where
  put-IsFresh : (k j : K) (v : V) (m : List (K × V)) → k ≢ j → IsFresh j m → IsFresh j (put k v m)
  unfolding put
  put-IsFresh k j v [] n h = (n, tt)
  put-IsFresh k j v ((i, w) ∷ m) n (h, hs) = elim (Bool-cases (i == k)) [
    | inl same ↦ rw same (h, hs)
    | inr other ↦ rw other (h, put-IsFresh k j v m n hs)
  ]

  delete-IsFresh : (k j : K) (m : List (K × V)) → IsFresh j m → IsFresh j (delete k m)
  unfolding delete
  delete-IsFresh k j [] h = tt
  delete-IsFresh k j ((i, w) ∷ m) (h, hs) = elim (Bool-cases (i == k)) [
    | inl same ↦ rw same (delete-IsFresh k j m hs)
    | inr other ↦ rw other (h, delete-IsFresh k j m hs)
  ]

  pub put-IsDistinct : (k : K) (v : V) (m : List (K × V)) → IsDistinct m → IsDistinct (put k v m)
  unfolding put
  put-IsDistinct k v [] h = (tt, tt)
  put-IsDistinct k v ((i, w) ∷ m) (f, d) = elim (Bool-cases (i == k)) [
    | inl same ↦ rw same (f, d)
    | inr other ↦
        rw other
          (put-IsFresh k i v m (λ p. cc ((key.eqb_iff i k).1 (sym p))) f, put-IsDistinct k v m d)
  ]

  pub delete-IsDistinct : (k : K) (m : List (K × V)) → IsDistinct m → IsDistinct (delete k m)
  unfolding delete
  delete-IsDistinct k [] h = tt
  delete-IsDistinct k ((i, w) ∷ m) (f, d) = elim (Bool-cases (i == k)) [
    | inl same ↦ rw same (delete-IsDistinct k m d)
    | inr other ↦ rw other (delete-IsFresh k i m f, delete-IsDistinct k m d)
  ]

  pub delete_fresh : (k : K) (m : List (K × V)) → IsFresh k m → delete k m ≡ m
  unfolding delete
  delete_fresh k [] h = refl
  delete_fresh k ((i, w) ∷ m) (n, h) = ground (arith, key.eqb_iff i k, delete_fresh k m h)

  pub lookup_fresh : (k : K) (m : List (K × V)) → IsFresh k m → lookup k m ≡ none
  unfolding lookup
  lookup_fresh k [] h = refl
  lookup_fresh k ((i, w) ∷ m) (n, h) = ground (arith, key.eqb_iff i k, lookup_fresh k m h)

  pub delete-put : (k : K) (v : V) (m : List (K × V)) → delete k (put k v m) ≡ delete k m
  unfolding put delete
  delete-put k v [] = ground (arith, key.eqb_iff k k)
  delete-put k v ((i, w) ∷ m) = ground (arith, key.eqb_iff i k, key.eqb_iff k k, delete-put k v m)

  pub length-insert_found :
      (k : K) (v w : V) (m : List (K × V)) → lookup k m ≡ some w → length (put k v m) ≡ length m
  unfolding lookup put
  length-insert_found k v w [] h = cc
  length-insert_found k v w ((i, x) ∷ m) h = ground (arith, length-insert_found k v w m)
