-- ===== src/Prelude/Errors.antt =====
-- Go's `(value, error)` results.
use moos_kernel.Prelude.Tests.{◌≡◌, refl, Bool, true, false, ◌⊎◌, inl, inr, arith}

pub data Result (E A : Type 0) : Type 0 where
  ok : A → Result E A
  err : E → Result E A

infixl 5 ◌>>=◌ ◌>>◌
abbrev pub ◌>>=◌ : {E A B : Type 0} → Result E A → (A → Result E B) → Result E B
ok value >>= rest = rest value
err reason >>= rest = err reason

abbrev pub ◌>>◌ : {E B : Type 0} → Result E (Unit {0}) → Result E B → Result E B
check >> rest = check >>= λ _. rest

-- `if test { return err }`
abbrev pub reject_if : {E : Type 0} → Bool → E → Result E (Unit {0})
reject_if true e = err e
reject_if false e = ok tt

pub Result-cases :
    {E A : Type 0} (r : Result E A) → ((a : A) × (r ≡ ok a)) ⊎ ((e : E) × (r ≡ err e))
Result-cases (ok a) = inl (a, refl)
Result-cases (err e) = inr (e, refl)

-- A guard that lets through.
pub reject_if-passes :
    {E A : Type 0} (b : Bool) (e : E) (m : Result E A) (a : A)
    → (reject_if b e >> m) ≡ ok a
    → (b ≡ false) × (m ≡ ok a)
reject_if-passes true e m a h = absurd (ground arith)
reject_if-passes false e m a h = (refl, h)

-- A chain that succeeds has a first step that does.
pub >>=-eq-ok :
    {E A B : Type 0} (m : Result E A) (rest : A → Result E B) (b : B)
    → (m >>= rest) ≡ ok b
    → (a : A) × (m ≡ ok a) × (rest a ≡ ok b)
>>=-eq-ok (ok a) rest b h = (a, refl, h)
>>=-eq-ok (err e) rest b h = absurd (ground arith)
