-- ===== src/Tests/RicSets.antt =====
-- The strided sets at concrete values.
use llvm_mctoll.Base.{◌≡◌, ◌↔◌, refl, true, some, arith, false, ◌-◌, ◌^◌}
use llvm_mctoll.Base.Word.{add64, sub64, mul64}
use llvm_mctoll.Ric.Defs.{
  Ric, make_ric, contains_value, is_subset_of, multiply_ric, lower_value, upper_value,
}
use llvm_mctoll.Ric.Members.{IsBounded, IsMember, contains_value_iff}
use llvm_mctoll.Ric.Bounds.{is_subset_of_sound, contains_value_below}

-- 8, 12, ... 48
abbrev strided : Ric
strided = make_ric 4 0 10 8

strided-IsBounded : IsBounded strided
strided-IsBounded = record {
  aligned = omega arith;
  lower = omega arith;
  upper = omega arith;
  base = omega arith;
  top = omega arith;
  lower_set = refl;
  upper_set = refl;
}

-- 0, 1, ... 100
abbrev range : Ric
range = make_ric 1 0 100 0

range-IsBounded : IsBounded range
range-IsBounded = record {
  aligned = omega arith;
  lower = omega arith;
  upper = omega arith;
  base = omega arith;
  top = omega arith;
  lower_set = refl;
  upper_set = refl;
}

contains_value_iff_example : (contains_value strided 16 ≡ some true) ↔ IsMember strided 16
contains_value_iff_example = contains_value_iff strided strided-IsBounded 16 (omega arith)

tripled-IsBounded : IsBounded (multiply_ric strided 3)
unfolding multiply_ric mul64
tripled-IsBounded = record {
  aligned = omega arith;
  lower = omega arith;
  upper = omega arith;
  base = omega arith;
  top = omega arith;
  lower_set = refl;
  upper_set = refl;
}

strided-holds : contains_value strided 16 ≡ some true
unfolding contains_value sub64
strided-holds = refl

strided_subset : is_subset_of strided range ≡ true
unfolding is_subset_of lower_value upper_value add64 mul64
strided_subset = refl

is_subset_of_sound_example : IsMember range 16
is_subset_of_sound_example =
    is_subset_of_sound strided range 16 strided-IsBounded range-IsBounded refl strided_subset
      (2, refl, omega arith, omega arith)

-- -4, 0, 4, ... 48
abbrev reaching_below : Ric
reaching_below = make_ric 4 (2 ^ 64 - 3) 10 8

contains_value_below_example : contains_value reaching_below 4 ≡ some false
contains_value_below_example =
    contains_value_below reaching_below 4 (omega arith) refl (omega arith) (omega arith)
      (omega arith) (omega arith)
