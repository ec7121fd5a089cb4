-- ===== src/NumaUtils/Tests.antt =====
-- CPUs 0 and 1 on NUMA node 0, CPU 2 on node 1, and no others.
use racoherence.Prelude.{ℕ, zero, suc, ◌≡◌, refl, true, false, Option, none, some, arith}
use racoherence.NumaUtils.{find_cpu_on_numa, Elsewhere, find_cpu_on_numa_lem}

abbrev node_of : ℕ → Option ℕ
node_of zero = some 0
node_of (suc zero) = some 0
node_of (suc (suc zero)) = some 1
node_of (suc (suc (suc n))) = none

first_two : Elsewhere node_of 1 0 2
first_two zero h = (0, refl, λ e. omega (arith, e))
first_two (suc zero) h = (0, refl, λ e. omega (arith, e))
first_two (suc (suc i)) h = absurd (omega arith)

find_cpu_on_numa_lem_example :
    (find_cpu_on_numa node_of 4 0 none ≡ some (true, 0))
    × (node_of 2 ≡ none → find_cpu_on_numa node_of 7 0 (some 1) ≡ some (false, 2))
    × (node_of 2 ≡ some 1 → find_cpu_on_numa node_of 8 0 (some 1) ≡ some (true, 3))
find_cpu_on_numa_lem_example = find_cpu_on_numa_lem node_of 2 4 1 0 first_two (omega arith)
