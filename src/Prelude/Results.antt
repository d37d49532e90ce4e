-- ===== src/Prelude/Results.antt =====
-- Rust's `Result` with `?` as the bind of do blocks, generic in the error.
use mathlib.Core.Path.{◌≡◌, refl, ap}
use mathlib.Core.Bool.{Bool, true, false}

-- The error comes first in the type, as in `Result<A, E>` read backwards.
pub data Result {ℓ κ} (E : Type ℓ) (A : Type κ) : Type (ℓ ⊔ κ) where
  err : E → Result E A
  ok : A → Result E A

-- `Result::and_then`
abbrev pub and_then {ℓ κ μ} :
    {E : Type ℓ} {A : Type κ} {B : Type μ} → (A → Result E B) → Result E A → Result E B
and_then next (err e) = err e
and_then next (ok a) = next a

infixl 5 ◌>>=◌ ◌>>◌
abbrev pub ◌>>=◌ {ℓ κ μ} :
    {E : Type ℓ} {A : Type κ} {B : Type μ} → Result E A → (A → Result E B) → Result E B
result >>= next = and_then next result

abbrev pub ◌>>◌ {ℓ κ μ} :
    {E : Type ℓ} {A : Type κ} {B : Type μ} → Result E A → Result E B → Result E B
result >> later = and_then (λ _. later) result

-- `if bad { return Err(e) }`.
abbrev pub reject_if {ℓ} : {E : Type ℓ} → Bool → E → Result E (Unit {0})
reject_if true e = err e
reject_if false e = ok tt

-- A chain that succeeds has a first step that does, and the rest succeeds from its value.
pub >>=-eq-ok {ℓ κ μ} :
    {E : Type ℓ} {A : Type κ} {B : Type μ} (result : Result E A) (next : A → Result E B) {final : B}
    → (result >>= next) ≡ ok final
    → (middle : A) × (result ≡ ok middle) × (next middle ≡ ok final)
>>=-eq-ok (err e) next h = cc
>>=-eq-ok (ok middle) next h = (middle, refl, h)

abbrev value_or {ℓ κ} : {E : Type ℓ} {A : Type κ} → A → Result E A → A
value_or default (ok a) = a
value_or default (err e) = default

pub ok-injective {ℓ κ} :
    {E : Type ℓ} {A : Type κ} {a b : A} → ◌≡◌ {A = Result E A} (ok a) (ok b) → a ≡ b
ok-injective {a} h = ap (value_or a) h

-- A sequence of checks that passes.
pub >>-eq-ok {ℓ κ} :
    {E : Type ℓ} {A : Type κ} (first : Result E (Unit {0})) (later : Result E A) {final : A}
    → (first >> later) ≡ ok final
    → (first ≡ ok tt) × (later ≡ ok final)
>>-eq-ok (err e) later h = cc
>>-eq-ok (ok tt) later h = (refl, h)

pub reject_if-eq-ok {ℓ} :
    {E : Type ℓ} (bad : Bool) (e : E) {u : Unit {0}} → reject_if bad e ≡ ok u → bad ≡ false
reject_if-eq-ok true e h = cc
reject_if-eq-ok false e h = refl
