-- ===== src/NumaUtils.antt =====
-- find_cpu_on_numa of include/numaUtils.hpp. numa_node_of_cpu of the NUMA library is a parameter,
-- `none` for its -1. pin_to_core is a system call.
pub mod Tests
use racoherence.Prelude.{
  ℕ, zero, suc, ◌+◌, ◌%◌, ◌≤◌, ◌<◌, ◌≡◌, ◌≢◌, refl, ap, ◌∙◌, Bool, true, false, Option, none, some,
  arith, ◌==◌,
}
use mathlib.Core.Path.{subst}
use mathlib.Core.Option.{some-injective}
use racoherence.Config.{u32_mod}

-- The loop, while `numa_id` is not the target: whether it ends without an error, and `cpu_id` after it.
find_from : (ℕ → Option ℕ) → ℕ → ℕ → Option ℕ → ℕ → Option (Bool × ℕ)
find_from node_of zero target numa_id cpu_id = none
find_from node_of (suc fuel) target numa_id cpu_id =
    let visit : Option (Bool × ℕ) = elim (node_of cpu_id) [
      | none ↦ some (false, cpu_id)
      | some n ↦ find_from node_of fuel target (some n) ((cpu_id + 1) % u32_mod)
    ] in
    elim numa_id [
      | none ↦ visit
      | some n ↦ elim (n == target) [ true ↦ some (true, cpu_id) | false ↦ visit ]
    ]

-- The target -1 is `none`; the fuel is a bound on the CPUs visited. It is true for the result 0.
unfoldable pub find_cpu_on_numa : (ℕ → Option ℕ) → ℕ → ℕ → Option ℕ → Option (Bool × ℕ)
unfolding find_from
find_cpu_on_numa node_of fuel cpu_id target = elim target [
  | none ↦ some (true, cpu_id)
  | some t ↦ find_from node_of fuel t none cpu_id
]

-- The loop may go on.
abbrev Going : Option ℕ → ℕ → Type 0
Going numa_id target = (n : ℕ) → numa_id ≡ some n → n ≢ target

visits :
    (node_of : ℕ → Option ℕ) (fuel target n : ℕ) (numa_id : Option ℕ) (cpu_id : ℕ)
    → Going numa_id target
    → node_of cpu_id ≡ some n
    → cpu_id + 1 < u32_mod
    → find_from node_of (suc fuel) target numa_id cpu_id
      ≡ find_from node_of fuel target (some n) (cpu_id + 1)
unfolding find_from
visits node_of fuel target n none cpu_id g e small =
    let step : (cpu_id + 1) % u32_mod ≡ cpu_id + 1 = omega arith in rw (find_from, e, step) refl
visits node_of fuel target n (some m) cpu_id g e small =
    let step : (cpu_id + 1) % u32_mod ≡ cpu_id + 1 = omega arith in
    let other : (m == target) ≡ false = ground (arith, g m refl) in
    rw (find_from, other, e, step) refl

fails :
    (node_of : ℕ → Option ℕ) (fuel target : ℕ) (numa_id : Option ℕ) (cpu_id : ℕ)
    → Going numa_id target
    → node_of cpu_id ≡ none
    → find_from node_of (suc fuel) target numa_id cpu_id ≡ some (false, cpu_id)
unfolding find_from
fails node_of fuel target none cpu_id g e = rw (find_from, e) refl
fails node_of fuel target (some m) cpu_id g e =
    let other : (m == target) ≡ false = ground (arith, g m refl) in rw (find_from, other, e) refl

arrives :
    (node_of : ℕ → Option ℕ) (fuel target cpu_id : ℕ)
    → find_from node_of (suc fuel) target (some target) cpu_id ≡ some (true, cpu_id)
unfolding find_from
arrives node_of fuel target cpu_id =
    let same : (target == target) ≡ true = ground arith in rw (find_from, same) refl

-- The `k` CPUs from `cpu_id` on are on other nodes than the target.
abbrev pub Elsewhere : (ℕ → Option ℕ) → ℕ → ℕ → ℕ → Type 0
Elsewhere node_of target cpu_id k =
    (i : ℕ) → i < k → (n : ℕ) × (node_of (cpu_id + i) ≡ some n) × (n ≢ target)

walk :
    (node_of : ℕ → Option ℕ) (k fuel target : ℕ) (numa_id : Option ℕ) (cpu_id : ℕ)
    → Going numa_id target
    → Elsewhere node_of target cpu_id k
    → cpu_id + k < u32_mod
    → (m : Option ℕ) × Going m target
      × (find_from node_of (k + fuel) target numa_id cpu_id
          ≡ find_from node_of fuel target m (cpu_id + k))
walk node_of zero fuel target numa_id cpu_id g other small =
    let here : cpu_id + 0 ≡ cpu_id = omega arith in
    let none_more : 0 + fuel ≡ fuel = omega arith in (numa_id, g, rw (here, none_more) refl)
walk node_of (suc k) fuel target numa_id cpu_id g other small =
    let (n, e, differs) = other 0 (omega arith) in
    let zeroth : cpu_id + 0 ≡ cpu_id = omega arith in
    let next : cpu_id + 1 + k ≡ cpu_id + suc k = omega arith in
    let (m, g', runs) =
      walk node_of k fuel target (some n) (cpu_id + 1)
        (λ q same. subst (λ x. x ≢ target) (some-injective n q same) differs)
        (λ i l.
          subst (λ c. (n : ℕ) × (node_of c ≡ some n) × (n ≢ target)) {x = cpu_id + suc i}
            {y = cpu_id + 1 + i} (omega arith) (other (suc i) (omega arith)))
        (omega arith) in
    (
      m,
      g',
      ap (λ f. find_from node_of f target numa_id cpu_id) {x = suc k + fuel} {y = suc (k + fuel)}
            (omega arith)
          ∙ visits node_of (k + fuel) target n numa_id cpu_id g
              (subst (λ c. node_of c ≡ some n) zeroth e) (omega arith)
          ∙ runs
          ∙ ap (find_from node_of fuel target m) next,
    )

starts : (target : ℕ) → Going none target
starts target n e = absurd (cc e)

-- find_cpu_on_numa, when the `k` CPUs from `cpu_id` on are on other nodes than the target and the
-- fuel covers them. With the target -1 it succeeds and leaves `cpu_id`. If the next CPU is on no node,
-- it fails with that CPU in `cpu_id`. If the next CPU is on the target, it succeeds, and leaves in
-- `cpu_id` the CPU after it.
pub find_cpu_on_numa_lem :
    (node_of : ℕ → Option ℕ) (k fuel target cpu_id : ℕ)
    → Elsewhere node_of target cpu_id k
    → cpu_id + k + 1 < u32_mod
    → (find_cpu_on_numa node_of fuel cpu_id none ≡ some (true, cpu_id))
      × (node_of (cpu_id + k) ≡ none
          → find_cpu_on_numa node_of (k + suc fuel) cpu_id (some target) ≡ some (false, cpu_id + k))
      × (node_of (cpu_id + k) ≡ some target
          → find_cpu_on_numa node_of (k + suc (suc fuel)) cpu_id (some target)
            ≡ some (true, cpu_id + k + 1))
unfolding find_cpu_on_numa
find_cpu_on_numa_lem node_of k fuel target cpu_id other small =
    let (m, g, runs) =
      walk node_of k (suc fuel) target none cpu_id (starts target) other (omega arith) in
    let (m', g', runs') =
      walk node_of k (suc (suc fuel)) target none cpu_id (starts target) other (omega arith) in
    (
      refl,
      (λ e. runs ∙ fails node_of fuel target m (cpu_id + k) g e),
      λ e.
          runs'
          ∙ visits node_of (suc fuel) target target m' (cpu_id + k) g' e (omega arith)
          ∙ arrives node_of fuel target (cpu_id + k + 1),
    )
