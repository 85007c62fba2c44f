-- ===== src/Ric/Defs.antt =====
-- The class ReducedIntervalCongruence, its queries and its simple updates. Values are 64-bit
-- patterns. The update of a method is the new object; each of these methods returns true. Signed
-- overflow, which C++ leaves undefined, wraps here.
use llvm_mctoll.Base.{
  ℕ, ◌/◌, ◌%◌, ltb, ◌==◌, if◌then◌else◌, Bool, true, false, ◌&&◌, ◌||◌, not, Option, none, some,
}
use llvm_mctoll.Base.Word.{add64, sub64, mul64, slt, sle}

pub data BoundState : Type 0 where
  set neg_inf inf unsure : BoundState

pub record Ric : Type 0 where
  pub alignment : ℕ
  pub index_lower_bound : ℕ
  pub index_upper_bound : ℕ
  pub offset : ℕ
  pub lower_bound_state : BoundState
  pub upper_bound_state : BoundState

abbrev pub is_set_state : BoundState → Bool
is_set_state set = true
is_set_state _ = false

abbrev pub is_neg_inf : BoundState → Bool
is_neg_inf neg_inf = true
is_neg_inf _ = false

abbrev pub is_inf : BoundState → Bool
is_inf inf = true
is_inf _ = false

abbrev pub is_unsure : BoundState → Bool
is_unsure unsure = true
is_unsure _ = false

abbrev pub is_lower_bound_set : Ric → Bool
is_lower_bound_set r = is_set_state r.lower_bound_state

abbrev pub is_upper_bound_set : Ric → Bool
is_upper_bound_set r = is_set_state r.upper_bound_state

-- ReducedIntervalCongruence()
abbrev pub empty_ric : Ric
empty_ric = record {
  alignment = 1;
  index_lower_bound = 0;
  index_upper_bound = 0;
  offset = 0;
  lower_bound_state = set;
  upper_bound_state = set;
}

-- ReducedIntervalCongruence(alignment, indexLowerBound, indexUpperBound, offset)
abbrev pub make_ric : ℕ → ℕ → ℕ → ℕ → Ric
make_ric a l u o = record {
  alignment = a;
  index_lower_bound = l;
  index_upper_bound = u;
  offset = o;
  lower_bound_state = set;
  upper_bound_state = set;
}

-- The constructor that takes the states too.
abbrev pub make_ric_with : ℕ → ℕ → ℕ → ℕ → BoundState → BoundState → Ric
make_ric_with a l u o lower upper = record {
  alignment = a;
  index_lower_bound = l;
  index_upper_bound = u;
  offset = o;
  lower_bound_state = lower;
  upper_bound_state = upper;
}

-- The remainder and the quotient are unsigned, since Alignment is; the quotient is read as signed
-- again. `none` is a division by zero.
unfoldable pub contains_value : Ric → ℕ → Option Bool
contains_value r value =
    let moved = sub64 value r.offset in
    let index = moved / r.alignment in
    if r.alignment == 0
    then none
    else if not (moved % r.alignment == 0)
    then some false
    else if (is_lower_bound_set r && slt index r.index_lower_bound)
        || (is_upper_bound_set r && slt r.index_upper_bound index)
    then some false
    else some true

-- Offset + Alignment * IndexLowerBound, and the same at the upper bound.
unfoldable pub lower_value : Ric → ℕ
lower_value r = add64 r.offset (mul64 r.alignment r.index_lower_bound)

unfoldable pub upper_value : Ric → ℕ
upper_value r = add64 r.offset (mul64 r.alignment r.index_upper_bound)

unfoldable pub is_subset_of : Ric → Ric → Bool
is_subset_of r ric =
    if ltb r.alignment ric.alignment
    then false
    else if (not (is_lower_bound_set r) && is_set_state ric.lower_bound_state)
        || (not (is_upper_bound_set r) && is_set_state ric.upper_bound_state)
    then false
    else if is_unsure ric.lower_bound_state || is_unsure ric.upper_bound_state
    then false
    else (is_neg_inf ric.lower_bound_state
        || (is_lower_bound_set r && sle (lower_value ric) (lower_value r)))
      && (is_inf ric.upper_bound_state
          || (is_upper_bound_set r && sle (upper_value r) (upper_value ric)))

unfoldable pub widen_ric : Ric → Ric → Ric
widen_ric r ric = r

unfoldable pub adjust_ric : Ric → ℕ → Ric
adjust_ric r value = record r { offset = add64 r.offset value }

unfoldable pub multiply_ric : Ric → ℕ → Ric
multiply_ric r times = record r {
  offset = mul64 r.offset times;
  index_lower_bound = mul64 r.index_lower_bound times;
  index_upper_bound = mul64 r.index_upper_bound times;
}

unfoldable pub remove_lower_bounds : Ric → Ric
remove_lower_bounds r = record r { lower_bound_state = neg_inf }

unfoldable pub remove_upper_bounds : Ric → Ric
remove_upper_bounds r = record r { upper_bound_state = inf }

-- operator==, which leaves the states of the bounds out.
unfoldable pub eq_ric : Ric → Ric → Bool
eq_ric r ric =
    ric.alignment == r.alignment
    && ric.index_lower_bound == r.index_lower_bound
    && ric.index_upper_bound == r.index_upper_bound
    && ric.offset == r.offset
