-- ===== src/Prelude/Outcome.antt =====
-- What a Go call that returns `(A, error)` can do: return a value, return an error, or panic, which
-- an index out of range and a nil dereference do.
use tink.Prelude.{Option, none, some, List, get_elem?}
use tink.Prelude.{ℕ, ◌≡◌, refl, ◌⊎◌, inl, inr}

pub data Outcome {ℓ} (E : Type 0) (A : Type ℓ) : Type ℓ where
  ok : A → Outcome E A
  err : E → Outcome E A
  crash : Outcome E A

infixl 5 ◌>>=◌
abbrev pub ◌>>=◌ {ℓ κ} :
    {E : Type 0} {A : Type ℓ} {B : Type κ} → Outcome E A → (A → Outcome E B) → Outcome E B
ok a >>= f = f a
err e >>= f = err e
crash >>= f = crash

-- an error to return at once, or nothing
abbrev pub ◌>>◌ {ℓ} : {E : Type 0} {A : Type ℓ} → Option E → Outcome E A → Outcome E A
none >> k = k
some e >> k = err e

infixl 5 ◌>>◌
-- `if err != nil { return err }` over a value that may be missing
abbrev pub or_fail {ℓ} : {E : Type 0} {A : Type ℓ} → Option A → E → Outcome E A
or_fail none e = err e
or_fail (some a) e = ok a

-- `list[i]`
abbrev pub index {ℓ} : {E : Type 0} {A : Type ℓ} → List A → ℕ → Outcome E A
index xs i = elim (get_elem? xs i) [ none ↦ crash | some a ↦ ok a ]

pub Outcome-cases {ℓ} :
    {E : Type 0} {A : Type ℓ} (m : Outcome E A)
    → ((a : A) × (m ≡ ok a)) ⊎ (((e : E) × (m ≡ err e)) ⊎ (m ≡ crash))
Outcome-cases (ok a) = inl (a, refl)
Outcome-cases (err e) = inr (inl (e, refl))
Outcome-cases crash = inr (inr refl)
