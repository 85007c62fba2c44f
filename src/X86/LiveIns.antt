-- ===== src/X86/LiveIns.antt =====
-- addRegisterToFunctionLiveInSet of X86/X86FuncPrototypeDiscovery.cpp. A std::set is the list of its
-- elements in their order.
pub mod Sorted
pub mod Antichain
pub mod Covered
use llvm_mctoll.Base.{ℕ, ◌==◌, ltb, if◌then◌else◌, Bool, Option, none, some, List, [], ◌∷◌}
use llvm_mctoll.X86.Instr.{mem}
use llvm_mctoll.X86.Types.{X86Target}

unfoldable pub set_insert : ℕ → List ℕ → List ℕ
set_insert r [] = r ∷ []
set_insert r (q ∷ qs) =
    let rest = set_insert r qs in
    if ltb r q then r ∷ q ∷ qs else if r == q then q ∷ qs else q ∷ rest

unfoldable pub set_erase : ℕ → List ℕ → List ℕ
set_erase r [] = []
set_erase r (q ∷ qs) = let rest = set_erase r qs in if q == r then qs else q ∷ rest

-- The first register that the iterator visits which is in the set: PrevLiveInReg.
unfoldable pub first_live_in : List ℕ → List ℕ → Option ℕ
first_live_in [] set = none
first_live_in (q ∷ qs) set = let rest = first_live_in qs set in if mem q set then some q else rest

abbrev pub add_below : List ℕ → ℕ → Option ℕ → List ℕ
add_below set r none = set_insert r set
add_below set r (some q) = set

abbrev pub add_above : X86Target → List ℕ → ℕ → Option ℕ → List ℕ
add_above t set r (some q) = set_insert r (set_erase q set)
add_above t set r none = add_below set r (first_live_in (t.super_regs r) set)

unfoldable pub add_register_to_function_live_in_set : X86Target → List ℕ → ℕ → List ℕ
add_register_to_function_live_in_set t set r =
    if mem r set then set else add_above t set r (first_live_in (t.sub_regs r) set)
