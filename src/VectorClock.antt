-- ===== src/VectorClock.antt =====
-- include/vectorClock.hpp: the vector clocks that carry the happens-before order. `vc[NODE_COUNT]`
-- is the list of its entries, index 0 first; each entry is an `unsigned`.
pub mod Order
use racoherence.Prelude.{
  ℕ, suc, ◌+◌, ◌%◌, Bool, true, false, List, [], ◌∷◌, length, get_or, set, ltb, if◌then◌else◌,
}
use racoherence.Prelude.{replicate}
use racoherence.Config.{node_count, u32_mod}

abbrev pub VectorClock : Type 0
VectorClock = List ℕ

-- The value-initialised array.
unfoldable pub zero_clock : VectorClock
zero_clock = replicate node_count 0

-- `++vc[index]` on an `unsigned` wraps; an index out of range is ignored.
pub tick : VectorClock → ℕ → VectorClock
tick vc index =
    if ltb index (length vc) then set vc index ((get_or vc index 0 + 1) % u32_mod) else vc

-- No bounds check in the source: a write out of range is outside the model and changes nothing.
unfoldable pub assign : VectorClock → ℕ → ℕ → VectorClock
assign vc index clk_val = set vc index clk_val

-- The loop over `i`, element-wise maximum.
unfoldable pub merge : VectorClock → VectorClock → VectorClock
merge [] other = []
merge (x ∷ vc) [] = x ∷ vc
merge (x ∷ vc) (y ∷ other) = (if ltb y x then x else y) ∷ merge vc other

-- The loop of `operator<`, from the flag that it carries.
strictly : Bool → VectorClock → VectorClock → Bool
strictly strictly_less [] other = strictly_less
strictly strictly_less (x ∷ vc) [] = strictly_less
strictly strictly_less (x ∷ vc) (y ∷ other) =
    let rest = strictly (if ltb x y then true else strictly_less) vc other in
    if ltb y x then false else rest

-- `operator<`
pub lt : VectorClock → VectorClock → Bool
unfolding strictly
lt vc other = strictly false vc other

-- `operator<=`
unfoldable pub le : VectorClock → VectorClock → Bool
le [] other = true
le (x ∷ vc) [] = true
le (x ∷ vc) (y ∷ other) = let rest = le vc other in if ltb y x then false else rest

-- `operator[]` for reading.
abbrev pub entry : VectorClock → ℕ → ℕ
entry vc index = get_or vc index 0
