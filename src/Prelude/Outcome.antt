-- ===== src/Prelude/Outcome.antt =====
-- Rust's `Result<T, E>`, with `?` as `>>=` and `ensure!` as `ensure`.
use mathlib.Core.Path.{◌≡◌, refl}
use mathlib.Core.Bool.{Bool, true, false}
use mathlib.Core.Option.{Option, none, some}
use pengu_mesh.Prelude.Tests.{if◌then◌else◌}

pub data Result {ℓ κ} (A : Type ℓ) (E : Type κ) : Type (ℓ ⊔ κ) where
  ok : A → Result A E
  err : E → Result A E

infixl 5 ◌>>=◌ ◌>>◌
abbrev pub ◌>>=◌ {ℓ κ μ} :
    {A : Type ℓ} {B : Type κ} {E : Type μ} → Result A E → (A → Result B E) → Result B E
ok a >>= f = f a
err e >>= f = err e

abbrev pub ◌>>◌ {ℓ μ} : {B : Type ℓ} {E : Type μ} → Result (Unit {0}) E → Result B E → Result B E
m >> k = m >>= λ _. k

abbrev pub ensure {μ} : {E : Type μ} → Bool → E → Result (Unit {0}) E
ensure true e = ok tt
ensure false e = err e

-- `ok_or_else(...)?`.
abbrev pub found {ℓ κ} : {A : Type ℓ} {E : Type κ} → Option A → E → Result A E
found none e = err e
found (some a) e = ok a

-- What holds of a result that is no error.
unfoldable pub Ensures {ℓ κ} : {A : Type ℓ} {E : Type κ} → (A → Type 0) → Result A E → Type 0
Ensures P (ok a) = P a
Ensures P (err e) = Unit

pub Ensures-bind {ℓ κ μ} :
    {A : Type ℓ} {B : Type κ} {E : Type μ} (P : B → Type 0) (r : Result A E) (f : A → Result B E)
    → ((a : A) → r ≡ ok a → Ensures P (f a))
    → Ensures P (r >>= f)
unfolding Ensures
Ensures-bind P (ok a) f h = h a refl
Ensures-bind P (err e) f h = tt

pub Ensures-ensure {ℓ μ} :
    {A : Type ℓ} {E : Type μ} (P : A → Type 0) (b : Bool) (e : E) (k : Result A E)
    → (b ≡ true → Ensures P k)
    → Ensures P (ensure b e >> k)
unfolding Ensures
Ensures-ensure P true e k h = h refl
Ensures-ensure P false e k h = tt

pub Ensures-found {ℓ κ μ} :
    {A : Type ℓ} {B : Type κ} {E : Type μ} (P : B → Type 0) (o : Option A) (e : E)
    (f : A → Result B E)
    → ((a : A) → o ≡ some a → Ensures P (f a))
    → Ensures P (found o e >>= f)
unfolding Ensures
Ensures-found P none e f h = tt
Ensures-found P (some a) e f h = h a refl

pub Ensures-unless {ℓ μ} :
    {A : Type ℓ} {E : Type μ} (P : A → Type 0) (b : Bool) (e : E) (a : A)
    → (b ≡ false → P a)
    → Ensures P (if b then err e else ok a)
unfolding Ensures
Ensures-unless P true e a h = tt
Ensures-unless P false e a h = h refl

pub Ensures-both {ℓ μ} :
    {A : Type ℓ} {E : Type μ} (P Q : A → Type 0) (r : Result A E)
    → Ensures P r
    → Ensures Q r
    → Ensures (λ a. P a × Q a) r
unfolding Ensures
Ensures-both P Q (ok a) p q = (p, q)
Ensures-both P Q (err e) p q = tt
