-- ===== src/Ric/Merge.antt =====
-- intersectRIC and unionRIC. Each calls setAlignment through a `std::unique_ptr` that was never given
-- an object: undefined behaviour, `none`. What stands behind that call is never run.
use llvm_mctoll.Base.{if◌then◌else◌, Bool, false, ◌||◌, Option, none, some}
use llvm_mctoll.Ric.Defs.{Ric, is_unsure}

abbrev pub any_unsure : Ric → Ric → Bool
any_unsure r ric =
    is_unsure r.lower_bound_state
    || is_unsure r.upper_bound_state
    || is_unsure ric.lower_bound_state
    || is_unsure ric.upper_bound_state

-- The answer, with the object that the method is called on.
abbrev pub intersect_ric : Ric → Ric → Option (Bool × Ric)
intersect_ric r ric = if any_unsure r ric then some (false, r) else none

abbrev pub union_ric : Ric → Ric → Option (Bool × Ric)
union_ric r ric = none
