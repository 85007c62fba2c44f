-- ===== src/Vsa/Facts.antt =====
-- A specification of the methods of X86ValueSetAnalysis over facts, a partial function from locations
-- to numbers, with no sets and no map; and the methods called one after the other.
use llvm_mctoll.Base.{
  ℕ, ◌%◌, ◌^◌, ◌==◌, if◌then◌else◌, Bool, true, false, Option, none, some, List, [], ◌∷◌,
}
use llvm_mctoll.Base.Word.{add64, mul64}
use llvm_mctoll.Vsa.Aloc.{AlocType, eq_aloc}
use llvm_mctoll.Vsa.Analysis.{
  AlocToVsMap, try_insert_value, assign_value_to_src, assign_value_const, add_value_with_src,
  add_value_with_src_times, add_value_with_imm, add_value_with_imm_times, adjust_vs,
  xor_value_with_src,
}

abbrev pub Facts : Type 0
Facts = AlocType → Option ℕ

abbrev pub set_fact : Facts → AlocType → ℕ → Facts
set_fact f dest value x = if eq_aloc x dest then some value else f x

abbrev pub on_fact {ℓ} : {A : Type ℓ} → Option ℕ → A → (ℕ → A) → A
on_fact none missing found = missing
on_fact (some n) missing found = found n

abbrev pub or_zero : Option ℕ → ℕ
or_zero o = on_fact o 0 (λ n. n)

abbrev pub start_fact : Facts → AlocType → Facts
start_fact f dest = on_fact (f dest) (set_fact f dest 0) (λ n. f)

-- The calls of the methods.
pub data Command : Type 0 where
  try_insert : AlocType → ℕ → Command
  assign_src : AlocType → AlocType → Command
  assign_const : AlocType → Option ℕ → Command
  add_src : AlocType → AlocType → Command
  add_src_times : AlocType → AlocType → ℕ → Command
  add_imm : AlocType → ℕ → Command
  add_imm_times : AlocType → ℕ → ℕ → Command
  xor_src : AlocType → AlocType → Command
  adjust : AlocType → ℕ → Command

unfoldable pub run : Command → AlocToVsMap → Bool × AlocToVsMap
run (try_insert dest value) m = try_insert_value m dest value
run (assign_src dest src) m = assign_value_to_src m dest src
run (assign_const dest val) m = assign_value_const m dest val
run (add_src dest src) m = add_value_with_src m dest src
run (add_src_times dest src times) m = add_value_with_src_times m dest src times
run (add_imm dest imm) m = add_value_with_imm m dest imm
run (add_imm_times dest imm times) m = add_value_with_imm_times m dest imm times
run (xor_src dest src) m = xor_value_with_src m dest src
run (adjust dest value) m = adjust_vs m dest value

abbrev pub add_times : Facts → AlocType → Option ℕ → ℕ → Bool × Facts
add_times f dest addend times =
    if times == 0
    then (true, start_fact f dest)
    else on_fact addend (false, start_fact f dest)
        (λ n. (true, set_fact (start_fact f dest) dest (add64 (or_zero (f dest)) (mul64 n times))))

-- What a call means for the facts: the answer and the facts after it.
unfoldable pub meaning : Command → Facts → Bool × Facts
meaning (try_insert dest value) f = on_fact (f dest) (true, set_fact f dest value) (λ n. (false, f))
meaning (assign_src dest src) f =
    on_fact (f src) (true, set_fact (set_fact f src 0) dest 0) (λ n. (true, set_fact f dest n))
meaning (assign_const dest val) f = (true, set_fact f dest (or_zero val))
meaning (add_src dest src) f = add_times f dest (start_fact f dest src) 1
meaning (add_src_times dest src times) f = add_times f dest (start_fact f dest src) times
meaning (add_imm dest imm) f = add_times f dest (some imm) 1
meaning (add_imm_times dest imm times) f = add_times f dest (some imm) times
meaning (xor_src dest src) f = if eq_aloc dest src then (true, set_fact f dest 0) else (false, f)
meaning (adjust dest value) f = add_times f dest (some value) 1

-- The methods called one after the other, with their answers.
unfoldable pub run_all : List Command → AlocToVsMap → List Bool × AlocToVsMap
run_all [] m = ([], m)
run_all (c ∷ cs) m = let now = run c m in let rest = run_all cs now.1 in (now.0 ∷ rest.0, rest.1)

unfoldable pub meaning_all : List Command → Facts → List Bool × Facts
meaning_all [] f = ([], f)
meaning_all (c ∷ cs) f =
    let now = meaning c f in let rest = meaning_all cs now.1 in (now.0 ∷ rest.0, rest.1)

abbrev pub no_facts : Facts
no_facts x = none

-- What getConstantValue reads of a fact: the number as a 64-bit pattern.
abbrev pub as_word : ℕ → ℕ
as_word n = n % 2 ^ 64
