-- ===== src/Virtual.antt =====
-- cmd/virtual-worker: the container manager that sleeps in place of Docker's calls, of
-- worker/container_manager.go. Durations are int64 nanoseconds; math/rand is a parameter.
use tink.Prelude.{
  ℕ, zero, suc, ◌+◌, ◌*◌, ◌/◌, ◌%◌, ◌^◌, ◌-◌, ◌<◌, ◌≤◌, ◌≡◌, ◌⊎◌, inl, inr, refl, ap, ◌∙◌, String,
  Option, none, arith, ltb, if◌then◌else◌,
}
use tink.Prelude.Int.{ℤ, pos, negsuc, pos_part, neg_part, sub_ℕ, ltb_ℤ, quot_ℤ, wrap64, ◌+ℤ◌, ◌*ℤ◌}
use tink.Prelude.Small.{wrap64-small, quot_pos}
use tink.Prelude.Outcome.{Outcome, ok, crash, ◌>>=◌}
use tink.Proto.{State, success}

pub record FakeManager : Type 0 where
  pub sleep_minimum : ℤ
  pub sleep_jitter : ℤ

-- a duration that is not positive becomes one nanosecond
positive : ℤ → ℤ
unfolding ltb_ℤ
positive d = if ltb_ℤ (pos 0) d then d else pos 1

unfoldable pub new_fake_container_manager : ℤ → ℤ → FakeManager
unfolding positive
new_fake_container_manager minimum jitter = record {
  sleep_minimum = positive minimum;
  sleep_jitter = positive jitter;
}

-- the conversion to int32
int32 : ℤ → ℤ
int32 a =
    let r = (pos_part a + (2 ^ 32 - neg_part a % 2 ^ 32)) % 2 ^ 32 in
    if ltb r (2 ^ 31) then pos r else sub_ℕ r (2 ^ 32)

-- `Int31n` panics if its argument is not positive; what it draws otherwise is a parameter.
int31n : (ℕ → ℕ) → ℤ → Outcome String ℕ
unfolding ltb_ℤ
int31n draw n = if ltb_ℤ (pos 0) n then ok (draw (pos_part n)) else crash

-- the time slept, in nanoseconds
unfoldable pub sleep : (ℕ → ℕ) → FakeManager → Outcome String ℤ
unfolding int31n int32 quot_ℤ wrap64 ◌*ℤ◌ ◌+ℤ◌
sleep draw m = do
  n ← int31n draw (int32 (quot_ℤ m.sleep_jitter 1000000))
  ok (wrap64 (wrap64 (pos n *ℤ pos 1000000) +ℤ m.sleep_minimum))

-- The state that the wait for a container gives.
pub wait_for_container : (ℕ → ℕ) → FakeManager → Outcome String State
unfolding sleep
wait_for_container draw m = do t ← sleep draw m; ok success

-- nil, in the place of an error
unfoldable pub pull_image : (ℕ → ℕ) → FakeManager → Outcome String (Option String)
unfolding sleep
pull_image draw m = do t ← sleep draw m; ok none

-- what `positive` leaves of the duration
abbrev one_or : ℕ → ℕ
one_or zero = 1
one_or (suc n) = suc n

positive-eq : (d : ℤ) → positive d ≡ pos (one_or (pos_part d))
unfolding positive
positive-eq (pos zero) = ground arith
positive-eq (pos (suc n)) = ground arith
positive-eq (negsuc n) = ground arith

int32-small : (n : ℕ) → n < 2 ^ 31 → int32 (pos n) ≡ pos n
unfolding int32
int32-small n h = ground arith

one_or-div : (n : ℕ) → one_or n / 1000000 ≡ n / 1000000
one_or-div zero = omega arith
one_or-div (suc n) = refl

milliseconds :
    (jitter : ℤ)
    → pos_part jitter < 2147483648000000
    → int32 (quot_ℤ (positive jitter) 1000000) ≡ pos (pos_part jitter / 1000000)
milliseconds jitter h =
    ap (λ d. int32 (quot_ℤ d 1000000)) (positive-eq jitter)
    ∙ ap int32 (quot_pos (one_or (pos_part jitter)) 1000000 omega arith)
    ∙ ap (λ n. int32 (pos n)) (one_or-div (pos_part jitter))
    ∙ int32-small (pos_part jitter / 1000000) omega arith

times : (n : ℕ) → pos n *ℤ pos 1000000 ≡ pos (n * 1000000)
unfolding ◌*ℤ◌
times n = ground arith

plus : (a b : ℕ) → pos a +ℤ pos b ≡ pos (a + b)
unfolding ◌+ℤ◌
plus a b = ground arith

slept :
    (n m : ℕ)
    → n < 2 ^ 31
    → m < 2 ^ 62
    → wrap64 (wrap64 (pos n *ℤ pos 1000000) +ℤ pos m) ≡ pos (n * 1000000 + m)
slept n m h b =
    ap (λ x. wrap64 (wrap64 x +ℤ pos m)) (times n)
    ∙ ap (λ x. wrap64 (x +ℤ pos m)) (wrap64-small (n * 1000000) omega arith)
    ∙ ap wrap64 (plus (n * 1000000) m)
    ∙ wrap64-small (n * 1000000 + m) omega arith

sleep-eq :
    (draw : ℕ → ℕ) (minimum jitter : ℤ)
    → pos_part jitter < 2147483648000000
    → sleep draw (new_fake_container_manager minimum jitter) ≡ (
        int31n draw (pos (pos_part jitter / 1000000)) >>= λ n.
        ok (wrap64 (wrap64 (pos n *ℤ pos 1000000) +ℤ pos (one_or (pos_part minimum)))))
unfolding sleep new_fake_container_manager
sleep-eq draw minimum jitter h = ground (arith, milliseconds jitter h, positive-eq minimum)

int31n-cases :
    (draw : ℕ → ℕ) (n : ℕ)
    → ((n ≡ 0) × (int31n draw (pos n) ≡ crash)) ⊎ ((0 < n) × (int31n draw (pos n) ≡ ok (draw n)))
unfolding int31n
int31n-cases draw zero = inl (refl, ground arith)
int31n-cases draw (suc n) = inr (omega arith, ground arith)

-- A wait that ends, after a sleep of a length between the two bounds.
abbrev pub Waits : (ℕ → ℕ) → FakeManager → ℕ → ℕ → Type 0
Waits draw m low high =
    (t : ℕ) × (sleep draw m ≡ ok (pos t))
    × (low ≤ t)
    × (t ≤ high)
    × (wait_for_container draw m ≡ ok success)

wait_for_container-slept :
    (draw : ℕ → ℕ) (m : FakeManager) (t : ℤ)
    → sleep draw m ≡ ok t
    → wait_for_container draw m ≡ ok success
unfolding wait_for_container
wait_for_container-slept draw m t h = ground (arith, h)

wait_for_container-crashed :
    (draw : ℕ → ℕ) (m : FakeManager) → sleep draw m ≡ crash → wait_for_container draw m ≡ crash
unfolding wait_for_container
wait_for_container-crashed draw m h = ground (arith, h)

one_or-bounds : (n : ℕ) → (n ≤ one_or n) × (one_or n ≤ suc n)
one_or-bounds zero = ground arith
one_or-bounds (suc n) = ground arith

-- With a generator that draws below its bound, a least sleep below 2^62 - 1 ns and a jitter below 2^31 ms,
-- a wait for a container panics exactly when the jitter is below a millisecond, negative ones included;
-- otherwise it gives a success after a sleep of at least the least one and at most both and 1 ns.
pub wait_for_container-cases :
    (draw : ℕ → ℕ) (minimum jitter : ℤ)
    → ((n : ℕ) → 0 < n → draw n < n)
    → pos_part minimum < 2 ^ 62 - 1
    → pos_part jitter < 2147483648000000
    → let m = new_fake_container_manager minimum jitter in
      ((pos_part jitter < 1000000) × (wait_for_container draw m ≡ crash))
      ⊎ ((1000000 ≤ pos_part jitter)
          × Waits draw m (pos_part minimum) (suc (pos_part minimum + pos_part jitter)))
wait_for_container-cases draw minimum jitter below b h =
    let m = new_fake_container_manager minimum jitter in
    let q = pos_part jitter / 1000000 in
    let (low, high) = one_or-bounds (pos_part minimum) in
    elim (int31n-cases draw q) [
      | inl (z, e) ↦ inl (
        omega arith,
        wait_for_container-crashed draw m ground (arith, e, sleep-eq draw minimum jitter h),
      )
      | inr (p, e) ↦
          let d = below q p in
          let e' : sleep draw m ≡ ok (pos (draw q * 1000000 + one_or (pos_part minimum))) = ground (
            arith,
            e,
            sleep-eq draw minimum jitter h,
            slept (draw q) (one_or (pos_part minimum)) (omega arith) (omega arith),
          ) in
          inr (
            omega arith,
            (
              draw q * 1000000 + one_or (pos_part minimum),
              e',
              omega arith,
              omega arith,
              wait_for_container-slept draw m _ e',
            ),
          )
    ]
