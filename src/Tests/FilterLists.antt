-- ===== src/Tests/FilterLists.antt =====
-- The lists of functions at concrete names. Types and functions are numbers.
use llvm_mctoll.Base.{ℕ, ◌≤◌, refl, [], ◌∷◌, none}
use llvm_mctoll.Filter.Lists.{FunctionFilter, add_excluded_function, add_included_function}
use llvm_mctoll.Filter.Counts.{count, exclude_twice_included}

-- Function 7 is included.
abbrev filter : FunctionFilter ℕ ℕ
filter = record {
  excluded = [];
  included = record { start_idx = 0; sym_name = 7; func_type = 1; func = none } ∷ [];
}

exclude_twice_included_example :
    (1
      ≤ count 8
          (add_excluded_function
            (add_included_function (add_included_function filter 8 1) 8 1)
            8
            1
            80).included)
    × (1
        ≤ count 8
            (add_excluded_function
              (add_included_function (add_included_function filter 8 1) 8 1)
              8
              1
              80).excluded)
exclude_twice_included_example = exclude_twice_included filter 8 1 80 refl
