-- ===== src/Vsa/Analysis.antt =====
-- X86ValueSetAnalysis: the map from locations to sets and the methods that change it. A method
-- gives its answer and the new map. The sets that the map points to are never changed in place, so
-- a map of the sets themselves behaves as the map of pointers. Printing is left out.
use llvm_mctoll.Base.{
  ℕ, ◌==◌, if◌then◌else◌, Bool, true, false, ◌&&◌, not, Option, none, some, List, [], ◌∷◌,
}
use llvm_mctoll.Base.Word.{add64, mul64}
use llvm_mctoll.Ric.Defs.{Ric, is_lower_bound_set, is_upper_bound_set}
use llvm_mctoll.Vsa.Aloc.{AlocType, eq_aloc}
use llvm_mctoll.Vsa.ValueSet.{
  ValueSet, zero_set, constant_set, cross_value_sets, multiply_loop, adjust_loop,
}

-- alocToVSMap: the newest entry of a key is its value.
abbrev pub AlocToVsMap : Type 0
AlocToVsMap = List (AlocType × ValueSet)

unfoldable pub find : AlocToVsMap → AlocType → Option ValueSet
find [] x = none
find ((k, s) ∷ m) x = if eq_aloc x k then some s else find m x

-- alocToVSMap[dest] = s
unfoldable pub assign : AlocToVsMap → AlocType → ValueSet → AlocToVsMap
assign m dest s = (dest, s) ∷ m

unfoldable pub assign_zero_ric : AlocToVsMap → AlocType → AlocToVsMap
assign_zero_ric m dest = assign m dest zero_set

-- What a method does according to whether a location has a set.
abbrev pub on_found :
    Option ValueSet → Bool × AlocToVsMap → (ValueSet → Bool × AlocToVsMap) → Bool × AlocToVsMap
on_found none missing found = missing
on_found (some s) missing found = found s

unfoldable pub try_insert_value : AlocToVsMap → AlocType → ℕ → Bool × AlocToVsMap
try_insert_value m dest value =
    on_found (find m dest) (true, assign m dest (constant_set value)) (λ s. (false, m))

unfoldable pub assign_value_to_src : AlocToVsMap → AlocType → AlocType → Bool × AlocToVsMap
assign_value_to_src m dest src =
    on_found (find m src) (true, assign_zero_ric (assign_zero_ric m src) dest)
      (λ s. (true, assign m dest s))

-- The sign-extended value of a ConstantInt, and 0 for any other `Value`.
abbrev pub const_value : Option ℕ → ℕ
const_value none = 0
const_value (some value) = value

unfoldable pub assign_value_const : AlocToVsMap → AlocType → Option ℕ → Bool × AlocToVsMap
assign_value_const m dest val = (true, assign m dest (constant_set (const_value val)))

-- The first statement of the two additions: an unknown destination starts at zero.
unfoldable pub start_at_zero : AlocToVsMap → AlocType → AlocToVsMap
start_at_zero m dest = (on_found (find m dest) (true, assign_zero_ric m dest) (λ s. (true, m))).1

-- The set of a location that has one; the default null pointer of operator[] is not reached.
abbrev pub set_at : Option ValueSet → ValueSet
set_at none = []
set_at (some s) = s

unfoldable pub add_value_with_src_times : AlocToVsMap → AlocType → AlocType → ℕ → Bool × AlocToVsMap
add_value_with_src_times m₀ dest src times =
    let m = start_at_zero m₀ dest in
    if times == 0
    then (true, m)
    else on_found (find m src) (false, m)
        (λ s.
          if times == 1
          then (true, assign m dest (cross_value_sets (set_at (find m dest)) s))
          else (
            true,
            assign m dest (cross_value_sets (set_at (find m dest)) (multiply_loop times s [])),
          ))

unfoldable pub add_value_with_src : AlocToVsMap → AlocType → AlocType → Bool × AlocToVsMap
add_value_with_src m dest src = add_value_with_src_times m dest src 1

unfoldable pub add_value_with_imm_times : AlocToVsMap → AlocType → ℕ → ℕ → Bool × AlocToVsMap
add_value_with_imm_times m₀ dest imm times =
    let m = start_at_zero m₀ dest in
    if times == 0
    then (true, m)
    else (true, assign m dest (adjust_loop (mul64 imm times) (set_at (find m dest)) []))

unfoldable pub add_value_with_imm : AlocToVsMap → AlocType → ℕ → Bool × AlocToVsMap
add_value_with_imm m dest imm = add_value_with_imm_times m dest imm 1

unfoldable pub adjust_vs : AlocToVsMap → AlocType → ℕ → Bool × AlocToVsMap
adjust_vs m dest value = add_value_with_imm_times m dest value 1

unfoldable pub xor_value_with_src : AlocToVsMap → AlocType → AlocType → Bool × AlocToVsMap
xor_value_with_src m dest src =
    if eq_aloc dest src then (true, assign_zero_ric m dest) else (false, m)

abbrev pub constant_of : Ric → Option ℕ
constant_of r =
    if not (is_lower_bound_set r && is_upper_bound_set r)
    then none
    else if not (r.index_lower_bound == r.index_upper_bound)
    then none
    else some (add64 r.offset (mul64 r.alignment r.index_lower_bound))

abbrev pub constant_of_set : Option ValueSet → Option ℕ
constant_of_set none = none
constant_of_set (some []) = none
constant_of_set (some (p ∷ [])) = constant_of p.ric
constant_of_set (some (p ∷ q ∷ s)) = none

-- The value, or `none` where the method answers false.
unfoldable pub get_constant_value : AlocToVsMap → AlocType → Option ℕ
get_constant_value m aloc = constant_of_set (find m aloc)
