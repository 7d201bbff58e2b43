-- ===== src/Common/Result.antt =====
-- Go's pair of a value and an error, of which one is there.
use mathlib.Core.Path.{◌≡◌, refl, subst}
use mathlib.Core.Bool.{Bool, true, false}
use mathlib.Core.Option.{Option, none, some}
use mathlib.Core.Logic.{◌⊎◌, inl, inr}

pub data Result {ℓ κ} (E : Type ℓ) (A : Type κ) : Type (ℓ ⊔ κ) where
  err : E → Result E A
  ok : A → Result E A

-- `if !test { return failure }`
abbrev pub require {ℓ} : {E : Type ℓ} → Bool → E → Result E (Unit {0})
require test failure = elim test [ false ↦ err failure | true ↦ ok tt ]

-- `if err != nil { return e }`, for a call whose own error is not looked at.
abbrev pub some_or {ℓ κ} : {E : Type ℓ} {A : Type κ} → Option A → E → Result E A
some_or (some a) e = ok a
some_or none e = err e

infixl 5 ◌>>=◌ ◌>>◌
-- An error is passed on, and the calls after it are not made.
abbrev pub ◌>>=◌ {ℓ κ μ} :
    {E : Type ℓ} {A : Type κ} {B : Type μ} → Result E A → (A → Result E B) → Result E B
err failure >>= next = err failure
ok value >>= next = next value

abbrev pub ◌>>◌ {ℓ κ} : {E : Type ℓ} {B : Type κ} → Result E (Unit {0}) → Result E B → Result E B
done >> next = done >>= λ _. next

pub >>=-eq-ok {ℓ κ μ} :
    {E : Type ℓ} {A : Type κ} {B : Type μ} (first : Result E A) (next : A → Result E B) {result : B}
    → (first >>= next) ≡ ok result
    → (value : A) × (first ≡ ok value) × (next value ≡ ok result)
>>=-eq-ok (err failure) next e = cc
>>=-eq-ok (ok value) next e = (value, refl, e)

pub require-eq-ok {ℓ} :
    {E : Type ℓ} (b : Bool) (e : E) {u : Unit {0}} → require b e ≡ ok u → b ≡ true
require-eq-ok true e h = refl
require-eq-ok false e h = cc

pub some_or-eq-ok {ℓ κ} :
    {E : Type ℓ} {A : Type κ} (o : Option A) (e : E) {a : A} → some_or o e ≡ ok a → o ≡ some a
some_or-eq-ok (some a) e h = cc
some_or-eq-ok none e h = cc

pub Result-cases {ℓ κ} :
    {E : Type ℓ} {A : Type κ} (r : Result E A) → ((a : A) × (r ≡ ok a)) ⊎ ((e : E) × (r ≡ err e))
Result-cases (ok a) = inl (a, refl)
Result-cases (err e) = inr (e, refl)

-- A property of the error, if there is one.
abbrev pub ErrIs {ℓ κ μ} : {E : Type ℓ} {A : Type κ} → (E → Type μ) → Result E A → Type (ℓ ⊔ κ ⊔ μ)
ErrIs {E} P r = (e : E) → r ≡ err e → P e

module _ {ℓ μ} {E : Type ℓ} (P : E → Type μ) where
  pub >>=-ErrIs {κ ν} :
      {A : Type κ} {B : Type ν} (m : Result E A) (f : A → Result E B)
      → ErrIs P m
      → ((a : A) → ErrIs P (f a))
      → ErrIs P (m >>= f)
  >>=-ErrIs (ok a) f h k e q = k a e q
  >>=-ErrIs (err x) f h k e q = let same : x ≡ e = cc in subst P same (h x refl)

  pub ok-ErrIs {κ} : {A : Type κ} (a : A) → ErrIs P (ok a)
  ok-ErrIs a e q = cc

  pub require-ErrIs : (b : Bool) (x : E) → P x → ErrIs P (require b x)
  require-ErrIs true x h e q = cc
  require-ErrIs false x h e q = let same : x ≡ e = cc in subst P same h

  pub some_or-ErrIs {κ} : {A : Type κ} (o : Option A) (x : E) → P x → ErrIs P (some_or o x)
  some_or-ErrIs (some a) x h e q = cc
  some_or-ErrIs none x h e q = let same : x ≡ e = cc in subst P same h

module _ {ℓ κ} {E : Type ℓ} {A : Type κ} where
  pub ok-inj : {a b : A} → ◌≡◌ {A = Result E A} (ok a) (ok b) → a ≡ b
  ok-inj q = cc

  pub err-ne-ok : {e : E} {a : A} → ◌≡◌ {A = Result E A} (err e) (ok a) → ⊥
  err-ne-ok q = cc
