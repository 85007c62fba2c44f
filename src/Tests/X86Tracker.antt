-- ===== src/Tests/X86Tracker.antt =====
-- Reaching definitions of small graphs, and the arguments of a function.
use llvm_mctoll.Base.{
  ℕ, ◌≡◌, ◌≢◌, ◌↔◌, refl, true, false, Option, none, some, List, [], ◌∷◌, arith, ◌==◌,
  if◌then◌else◌,
}
use llvm_mctoll.X86.Types.{IrType, int_type}
use llvm_mctoll.X86.Reaching.{set_flag, no_flags}
use llvm_mctoll.X86.Tracker.{define_args}
use llvm_mctoll.X86.Tracker.Arguments.{DefVal, ReadsBehind, define_args_out_of_range}
use llvm_mctoll.X86.Tracker.Search.{
  found, out_of_fuel, get_global_reaching_defs, search_preds, search, round, push_unvisited,
  unique_defs, sort_defs, insert_def,
}
use llvm_mctoll.X86.Tracker.Ends.{get_global_reaching_defs_terminates}
use llvm_mctoll.X86.Tracker.Lists.{has_def}
use llvm_mctoll.X86.Tracker.Defs.{OfPreds, get_global_reaching_defs_iff}
use llvm_mctoll.Tests.X86Target.{test_target}

-- Blocks 1 and 2 behind block 0 and before block 3, which is in a loop with block 4; blocks 1 and 0
-- define the register.
abbrev join_preds : List (List ℕ)
join_preds = [] ∷ (0 ∷ []) ∷ (0 ∷ []) ∷ (2 ∷ 1 ∷ 4 ∷ []) ∷ (3 ∷ []) ∷ []

abbrev join_probe : ℕ → Option DefVal
join_probe b =
    if b == 0 then some (some (0, 50)) else if b == 1 then some (some (1, 51)) else some none

join_runs :
    get_global_reaching_defs join_preds join_probe false 3 ≡ found ((0, 50) ∷ (1, 51) ∷ []) true
unfolding get_global_reaching_defs search_preds search round push_unvisited set_flag no_flags
    unique_defs sort_defs insert_def
join_runs = refl

get_global_reaching_defs_terminates_example :
    get_global_reaching_defs join_preds join_probe false 3 ≢ out_of_fuel
get_global_reaching_defs_terminates_example =
    get_global_reaching_defs_terminates join_preds join_probe false 3

get_global_reaching_defs_iff_example :
    (has_def (0, 50) ((0, 50) ∷ (1, 51) ∷ []) ≡ true)
    ↔ OfPreds join_preds join_probe (2 ∷ 1 ∷ 4 ∷ []) (0, 50)
get_global_reaching_defs_iff_example =
    get_global_reaching_defs_iff join_preds join_probe 3 (2 ∷ 1 ∷ 4 ∷ []) ((0, 50) ∷ (1, 51) ∷ [])
      true tt refl join_runs (0, 50)

-- Seven arguments of 64 bits.
abbrev seven_args : List IrType
seven_args =
    int_type 64
    ∷ int_type 64
    ∷ int_type 64
    ∷ int_type 64
    ∷ int_type 64
    ∷ int_type 64
    ∷ int_type 64
    ∷ []

define_args_out_of_range_example :
    ReadsBehind seven_args (define_args test_target seven_args 0 0 [])
define_args_out_of_range_example =
    define_args_out_of_range test_target seven_args 0 0 [] (omega arith) (omega arith)
