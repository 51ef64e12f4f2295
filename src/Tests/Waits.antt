-- ===== src/Tests/Waits.antt =====
-- Tests of the virtual worker's waits.
use tink.Prelude.{ℕ, ◌-◌, ◌<◌, ◌≤◌, ◌≡◌, ◌⊎◌, refl, arith}
use tink.Prelude.Int.{pos}
use tink.Prelude.Outcome.{ok, crash}
use tink.Virtual.{
  FakeManager, new_fake_container_manager, wait_for_container, pull_image, sleep, Waits,
  wait_for_container-cases,
}

-- the largest number below the bound
abbrev draw : ℕ → ℕ
draw n = n - 1

-- the flags' defaults, four seconds and two
abbrev by_default : FakeManager
by_default = new_fake_container_manager (pos 4000000000) (pos 2000000000)

by_default_sleeps : sleep draw by_default ≡ ok (pos 5999000000)
unfolding sleep new_fake_container_manager
by_default_sleeps = refl

-- without a jitter
no_jitter_panics : pull_image draw (new_fake_container_manager (pos 4000000000) (pos 0)) ≡ crash
unfolding pull_image new_fake_container_manager
no_jitter_panics = refl

wait_for_container-cases_example :
    ((2000000000 < 1000000) × (wait_for_container draw by_default ≡ crash))
    ⊎ ((1000000 ≤ 2000000000) × Waits draw by_default 4000000000 6000000001)
wait_for_container-cases_example =
    wait_for_container-cases draw (pos 4000000000) (pos 2000000000) (λ n p. omega arith)
      (omega arith) (omega arith)
