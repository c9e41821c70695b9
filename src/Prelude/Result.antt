-- ===== src/Prelude/Result.antt =====
-- Rust's `Result`: a computation that returns early with an error.
use mathlib.Core.Path.{◌≡◌, refl}
use mathlib.Core.Logic.{◌⊎◌, inl, inr}
use mathlib.Core.Bool.{Bool, true, false}
use mathlib.Core.Option.{Option, none, some}
use mathlib.Core.List.{List, [], ◌∷◌}
use contextd.Prelude.Lists.{All}

pub data Result (E : Type 0) (A : Type 0) : Type 0 where
  ok : A → Result E A
  err : E → Result E A

infixl 5 ◌>>=◌ ◌>>◌
abbrev pub ◌>>=◌ : {E A B : Type 0} → Result E A → (A → Result E B) → Result E B
ok a >>= f = f a
err e >>= f = err e

abbrev pub ◌>>◌ : {E B : Type 0} → Result E (Unit {0}) → Result E B → Result E B
m >> k = m >>= λ _. k

-- `if test { return Err(e); }`
abbrev pub reject_if : {E : Type 0} → Bool → E → Result E (Unit {0})
reject_if true e = err e
reject_if false e = ok tt

-- `ok_or_else`
abbrev pub ok_or : {E A : Type 0} → Option A → E → Result E A
ok_or none e = err e
ok_or (some a) e = ok a

-- Checks in their order: the first error, if there is one.
abbrev pub all_checks : {E : Type 0} → List (Result E (Unit {0})) → Result E (Unit {0})
all_checks [] = ok tt
all_checks (check ∷ checks) = check >> all_checks checks

-- Inversion of a bind that succeeds.
pub bind-ok :
    {E A B : Type 0} (m : Result E A) (f : A → Result E B) (b : B)
    → (m >>= f) ≡ ok b
    → (a : A) × (m ≡ ok a) × (f a ≡ ok b)
bind-ok (ok a) f b h = (a, refl, h)
bind-ok (err e) f b h = cc

pub then-ok :
    {E B : Type 0} (m : Result E (Unit {0})) (k : Result E B) (b : B)
    → (m >> k) ≡ ok b
    → (m ≡ ok tt) × (k ≡ ok b)
then-ok (ok done) k b h = (refl, h)
then-ok (err e) k b h = cc

pub reject_if-ok : {E : Type 0} (test : Bool) (e : E) → reject_if test e ≡ ok tt → test ≡ false
reject_if-ok true e h = cc
reject_if-ok false e h = refl

pub ok_or-ok : {E A : Type 0} (o : Option A) (e : E) (a : A) → ok_or o e ≡ ok a → o ≡ some a
ok_or-ok none e a h = cc
ok_or-ok (some b) e a h = cc

pub all_checks-ok :
    {E : Type 0} (checks : List (Result E (Unit {0})))
    → all_checks checks ≡ ok tt
    → All (λ check. check ≡ ok tt) checks
all_checks-ok [] h = tt
all_checks-ok (check ∷ checks) h =
    let (passed, rest) = then-ok check (all_checks checks) tt h in
    (passed, all_checks-ok checks rest)

pub Result-cases :
    {E A : Type 0} (r : Result E A) → ((a : A) × (r ≡ ok a)) ⊎ ((e : E) × (r ≡ err e))
Result-cases (ok a) = inl (a, refl)
Result-cases (err e) = inr (e, refl)
