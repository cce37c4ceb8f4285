-- ===== src/Prelude/Results.antt =====
-- Rust's `Result` as a monad, with the early returns that guards make.
use mathlib.Core.Path.{◌≡◌, refl, ap}
use mathlib.Core.Bool.{Bool, true, false}
use mathlib.Core.Option.{Option, none, some}
use codex_os.Prelude.Tests.{if◌then◌else◌}

pub data Result {ℓ κ} (E : Type ℓ) (A : Type κ) : Type (ℓ ⊔ κ) where
  ok : A → Result E A
  err : E → Result E A

infixl 5 ◌>>=◌ ◌>>◌
abbrev pub ◌>>=◌ {ℓ κ μ} :
    {E : Type ℓ} {A : Type κ} {B : Type μ} → Result E A → (A → Result E B) → Result E B
ok a >>= f = f a
err e >>= f = err e

abbrev pub ◌>>◌ {ℓ μ} : {E : Type ℓ} {B : Type μ} → Result E (Unit {0}) → Result E B → Result E B
m >> k = m >>= λ _. k

-- `if wrong { return Err(e); }`.
abbrev pub fail_if {ℓ} : {E : Type ℓ} → Bool → E → Result E (Unit {0})
fail_if true e = err e
fail_if false e = ok tt

-- `option.ok_or(e)?`.
abbrev pub ok_or {ℓ κ} : {E : Type ℓ} {A : Type κ} → Option A → E → Result E A
ok_or none e = err e
ok_or (some a) e = ok a

-- A run that ends well passed its guard.
pub fail_if-passed {ℓ κ} :
    {E : Type ℓ} {A : Type κ} (wrong : Bool) (e : E) (k : Result E A) (a : A)
    → (fail_if wrong e >> k) ≡ ok a
    → (wrong ≡ false) × (k ≡ ok a)
fail_if-passed true e k a h = absurd cc
fail_if-passed false e k a h = (refl, h)

-- A run that ends well went on from a value.
pub bind-passed {ℓ κ μ} :
    {E : Type ℓ} {A : Type κ} {B : Type μ} (m : Result E A) (f : A → Result E B) (b : B)
    → (m >>= f) ≡ ok b
    → (a : A) × ((m ≡ ok a) × (f a ≡ ok b))
bind-passed (ok a) f b h = (a, (refl, h))
bind-passed (err e) f b h = absurd cc

-- The value of a run that ended well, or one given.
abbrev pub value_or {ℓ κ} : {E : Type ℓ} {A : Type κ} → A → Result E A → A
value_or d (ok a) = a
value_or d (err e) = d

-- The same for a test that is written with `if`.
pub if_err-passed {ℓ κ} :
    {E : Type ℓ} {A : Type κ} (wrong : Bool) (e : E) (k : Result E A) (a : A)
    → (if wrong then err e else k) ≡ ok a
    → (wrong ≡ false) × (k ≡ ok a)
if_err-passed true e k a h = absurd cc
if_err-passed false e k a h = (refl, h)

-- A value that is known goes on.
pub bind-ok {ℓ κ μ} :
    {E : Type ℓ} {A : Type κ} {B : Type μ} (m : Result E A) (f : A → Result E B) (a : A)
    → m ≡ ok a
    → (m >>= f) ≡ f a
bind-ok (ok x) f a h = ap (λ r. r >>= f) h
bind-ok (err e) f a h = absurd cc

-- An option that gave a value held it.
pub ok_or-passed {ℓ κ} :
    {E : Type ℓ} {A : Type κ} (o : Option A) (e : E) (a : A) → ok_or o e ≡ ok a → o ≡ some a
ok_or-passed none e a h = absurd cc
ok_or-passed (some x) e a h = ap (λ r. some (value_or x r)) h
