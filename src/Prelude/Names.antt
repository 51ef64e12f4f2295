-- ===== src/Prelude/Names.antt =====
-- Sets of names: a Go `map[string]struct{}` as the list of its keys.
use mathlib.Core.Bool.{Bool-set, false≢true}
use mathlib.Core.List.{Mem, Nodup, Nodup-cons, Nodup-nil, mem-cons, mem-cons_self, not-mem-nil}
use mathlib.Core.Logic.Or
use mathlib.Core.Path.{subst}
use mathlib.Core.HLevel.{⊥_prop}
use tink.Prelude.{
  String, ◌≡◌, sym, ◌∙◌, ◌↔◌, ◌⊎◌, inl, inr, Bool-cases, Bool, true, false, ◌||◌, List, [], ◌∷◌,
  arith, str_eq, eq_iff,
}

-- `_, ok := set[name]`
unfoldable pub contains : List String → String → Bool
contains [] name = false
contains (x ∷ xs) name = str_eq x name || contains xs name

or_true : (a b : Bool) → b ≡ true → (a || b) ≡ true
or_true a b h = ground arith

or_left : (a b : Bool) → a ≡ true → (a || b) ≡ true
or_left a b h = ground arith

contains-of_mem : (xs : List String) (name : String) → Mem name xs → contains xs name ≡ true
unfolding contains
contains-of_mem [] name m = absurd (not-mem-nil m)
contains-of_mem (x ∷ xs) name m =
    Or.elim (Bool-set _ _) (mem-cons.0 m)
      (λ e. or_left (str_eq x name) (contains xs name) ((eq_iff x name).1 (sym e)))
      (λ r. or_true (str_eq x name) (contains xs name) (contains-of_mem xs name r))

or_cases : (a b : Bool) → (a || b) ≡ true → (a ≡ true) ⊎ (b ≡ true)
or_cases a b h = ground arith

mem-of_contains : (xs : List String) (name : String) → contains xs name ≡ true → Mem name xs
unfolding contains
mem-of_contains [] name h = cc
mem-of_contains (x ∷ xs) name h = elim (or_cases (str_eq x name) (contains xs name) h) [
  | inl e ↦ mem-cons.1 (Or.inl (sym ((eq_iff x name).0 e)))
  | inr r ↦ mem-cons.1 (Or.inr (mem-of_contains xs name r))
]

pub contains-false_iff :
    (xs : List String) (name : String) → (contains xs name ≡ false) ↔ (¬ Mem name xs)
contains-false_iff xs name = (
  λ h m. false≢true (sym h ∙ contains-of_mem xs name m),
  λ h. elim (Bool-cases (contains xs name)) [
    | inl t ↦ absurd (h (mem-of_contains xs name t))
    | inr f ↦ f
  ],
)

-- Names met one after the other, each new to those before it.
abbrev pub Fresh : List String → List String → Type 0
Fresh seen [] = Unit
Fresh seen (n ∷ ns) = (¬ Mem n seen) × Fresh (n ∷ seen) ns

Fresh-Nodup :
    (seen ns : List String) → Fresh seen ns → Nodup ns × ((m : String) → Mem m ns → ¬ Mem m seen)
Fresh-Nodup seen [] h = (Nodup-nil, λ m k. absurd (not-mem-nil k))
Fresh-Nodup seen (n ∷ ns) h =
    let (distinct, apart) = Fresh-Nodup (n ∷ seen) ns h.1 in
    (
      Nodup-cons.1 (λ k. apart n k mem-cons_self, distinct),
      λ m k s.
          Or.elim ⊥_prop (mem-cons.0 k) (λ e. h.0 (subst (λ x. Mem x seen) e s))
            (λ r. apart m r (mem-cons.1 (Or.inr s))),
    )

Nodup-Fresh :
    (seen ns : List String) → Nodup ns → ((m : String) → Mem m ns → ¬ Mem m seen) → Fresh seen ns
Nodup-Fresh seen [] h d = tt
Nodup-Fresh seen (n ∷ ns) h d =
    let (new, distinct) = Nodup-cons.0 h in
    (
      d n mem-cons_self,
      Nodup-Fresh (n ∷ seen) ns distinct λ m k s.
          Or.elim ⊥_prop (mem-cons.0 s) (λ e. new (subst (λ x. Mem x ns) e k))
            (λ r. d m (mem-cons.1 (Or.inr k)) r),
    )

-- To be new in turn is to be without duplicates.
pub Fresh-iff : (ns : List String) → Fresh [] ns ↔ Nodup ns
Fresh-iff ns = (λ h. (Fresh-Nodup [] ns h).0, λ h. Nodup-Fresh [] ns h (λ m _. not-mem-nil))
