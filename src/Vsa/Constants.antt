-- ===== src/Vsa/Constants.antt =====
-- The methods of X86ValueSetAnalysis against their specification over facts.
use mathlib.Core.Option
use llvm_mctoll.Base.{
  ℕ, ◌==◌, if◌then◌else◌, Bool, true, false, ◌≡◌, refl, ap, ap₂, inl, inr, ==_iff, Option-cases,
  Option, none, some, List, [], ◌∷◌, arith,
}
use llvm_mctoll.Base.Word.{add64, mul64}
use llvm_mctoll.Ric.Defs.{adjust_ric, multiply_ric}
use llvm_mctoll.Vsa.Aloc.{AlocType, eq_aloc, eq_aloc_refl}
use llvm_mctoll.Vsa.ValueSet.{ValueSet, constant_set, cross_value_sets, multiply_loop}
use llvm_mctoll.Vsa.Analysis.{
  AlocToVsMap, find, assign, on_found, assign_zero_ric, start_at_zero, try_insert_value,
  assign_value_to_src, assign_value_const, add_value_with_src, add_value_with_src_times,
  add_value_with_imm, add_value_with_imm_times, adjust_vs, xor_value_with_src, get_constant_value,
  constant_of_set,
}
use llvm_mctoll.Vsa.Facts.{
  Facts, set_fact, on_fact, or_zero, start_fact, Command, try_insert, assign_src, assign_const,
  add_src, add_src_times, add_imm, add_imm_times, xor_src, adjust, run, add_times, meaning, run_all,
  meaning_all, no_facts, as_word,
}

-- The map holds the one-element set of each fact, and nothing else.
abbrev pub Represents : AlocToVsMap → Facts → Type 0
Represents m f = (x : AlocType) → find m x ≡ Option.map constant_set (f x)

-- A method's answer and map against the meaning's answer and facts.
abbrev pub Refines : Bool × AlocToVsMap → Bool × Facts → Type 0
Refines result expected = (result.0 ≡ expected.0) × Represents result.1 expected.1

branch :
    (b : Bool) (n : ℕ) (s : Option ValueSet) (o : Option ℕ)
    → s ≡ Option.map constant_set o
    → (if b then some (constant_set n) else s) ≡ Option.map constant_set (if b then some n else o)
branch true n s o e = refl
branch false n s o e = e

assign-Represents :
    (m : AlocToVsMap) (f : Facts) (dest : AlocType) (n : ℕ)
    → Represents m f
    → Represents (assign m dest (constant_set n)) (set_fact f dest n)
unfolding assign find
assign-Represents m f dest n h x = branch (eq_aloc x dest) n _ _ (h x)

on_found-Refines :
    (o : Option ℕ) (missing : Bool × AlocToVsMap) (found : ValueSet → Bool × AlocToVsMap)
    (missing' : Bool × Facts) (found' : ℕ → Bool × Facts)
    → Refines missing missing'
    → ((n : ℕ) → Refines (found (constant_set n)) (found' n))
    → Refines (on_found (Option.map constant_set o) missing found) (on_fact o missing' found')
on_found-Refines none missing found missing' found' h k = h
on_found-Refines (some n) missing found missing' found' h k = k n

if-Refines :
    (b : Bool) (x y : Bool × AlocToVsMap) (x' y' : Bool × Facts)
    → Refines x x'
    → Refines y y'
    → Refines (if b then x else y) (if b then x' else y')
if-Refines true x y x' y' h k = h
if-Refines false x y x' y' h k = k

start_fact_lem : (f : Facts) (dest : AlocType) → start_fact f dest dest ≡ some (or_zero (f dest))
start_fact_lem f dest = elim (Option-cases (f dest)) [
  | inl e ↦ rw (e, eq_aloc_refl dest)
  | inr (n, e) ↦ rw e e
]

start-Represents :
    (m : AlocToVsMap) (f : Facts) (dest : AlocType)
    → Represents m f
    → Represents (start_at_zero m dest) (start_fact f dest)
unfolding start_at_zero assign_zero_ric
start-Represents m f dest h x = elim (Option-cases (f dest)) [
  | inl e ↦ rw (h dest, start_at_zero, e) (assign-Represents m f dest 0 h x)
  | inr (n, e) ↦ rw (h dest, start_at_zero, e) (h x)
]

add64_once : (o n times : ℕ) → (times == 1) ≡ true → add64 o n ≡ add64 o (mul64 n times)
unfolding add64 mul64
add64_once o n times h = rw ((==_iff times 1).0 h) (omega arith)

if_both :
    (b : Bool) (x y : Bool × AlocToVsMap) (expected : Bool × Facts)
    → (b ≡ true → Refines x expected)
    → Refines y expected
    → Refines (if b then x else y) expected
if_both true x y expected h k = h refl
if_both false x y expected h k = k

module _ (m : AlocToVsMap) (f : Facts) (h : Represents m f) where
  try_insert-Refines :
      (dest : AlocType) (value : ℕ)
      → Refines (try_insert_value m dest value) (meaning (try_insert dest value) f)
  unfolding try_insert_value meaning
  try_insert-Refines dest value = rw (h dest) (
      on_found-Refines (f dest) _ _ _ _ (refl, assign-Represents m f dest value h) (λ n. (refl, h)))

  assign_src-Refines :
      (dest src : AlocType)
      → Refines (assign_value_to_src m dest src) (meaning (assign_src dest src) f)
  unfolding assign_value_to_src assign_zero_ric meaning
  assign_src-Refines dest src = rw (h src) (
      on_found-Refines (f src) _ _ _ _
        (refl, assign-Represents _ _ dest 0 (assign-Represents m f src 0 h))
        (λ n. (refl, assign-Represents m f dest n h)))

  xor_src-Refines :
      (dest src : AlocType) → Refines (xor_value_with_src m dest src) (meaning (xor_src dest src) f)
  unfolding xor_value_with_src assign_zero_ric meaning
  xor_src-Refines dest src =
      if-Refines (eq_aloc dest src) _ _ _ _ (refl, assign-Represents m f dest 0 h) (refl, h)

  started :
      (dest x : AlocType)
      → find (start_at_zero m dest) x ≡ Option.map constant_set (start_fact f dest x)
  started dest = start-Represents m f dest h

  started_dest :
      (dest : AlocType) → find (start_at_zero m dest) dest ≡ some (constant_set (or_zero (f dest)))
  started_dest dest = rw (started dest dest, start_fact_lem f dest)

  add_imm-Refines :
      (dest : AlocType) (imm times : ℕ)
      → Refines (add_value_with_imm_times m dest imm times) (add_times f dest (some imm) times)
  unfolding add_value_with_imm_times adjust_ric
  add_imm-Refines dest imm times = rw (started_dest dest) (
      if-Refines (times == 0) _ _ _ _ (refl, started dest)
        (refl, assign-Represents _ _ dest _ (started dest)))

  times_step :
      (dest : AlocType) (n times : ℕ)
      → Represents
          (assign (start_at_zero m dest) dest (
            cross_value_sets
              (constant_set (or_zero (f dest)))
              (multiply_loop times (constant_set n) [])))
          (set_fact (start_fact f dest) dest (add64 (or_zero (f dest)) (mul64 n times)))
  unfolding cross_value_sets multiply_ric
  times_step dest n times = assign-Represents _ _ dest _ (started dest)

  add_src-Refines :
      (dest src : AlocType) (times : ℕ)
      → Refines
          (add_value_with_src_times m dest src times)
          (add_times f dest (start_fact f dest src) times)
  unfolding add_value_with_src_times cross_value_sets
  add_src-Refines dest src times =
      rw (started_dest dest, started dest src)
        (if-Refines (times == 0) _ _ _ _ (refl, started dest)
          (on_found-Refines (start_fact f dest src) _ _ _ _ (refl, started dest)
            (λ n.
              (if_both (times == 1) _ _ _
                (λ e. (
                  refl,
                  rw (← add64_once (or_zero (f dest)) n times e)
                      (assign-Represents _ _ dest _ (started dest)),
                ))
                (refl, times_step dest n times)))))

  pub run-Refines : (c : Command) → Refines (run c m) (meaning c f)
  unfolding run meaning add_value_with_src add_value_with_imm adjust_vs assign_value_const
  run-Refines (try_insert dest value) = try_insert-Refines dest value
  run-Refines (assign_src dest src) = assign_src-Refines dest src
  run-Refines (assign_const dest none) = (refl, assign-Represents m f dest 0 h)
  run-Refines (assign_const dest (some n)) = (refl, assign-Represents m f dest n h)
  run-Refines (add_src dest src) = add_src-Refines dest src 1
  run-Refines (add_src_times dest src times) = add_src-Refines dest src times
  run-Refines (add_imm dest imm) = add_imm-Refines dest imm 1
  run-Refines (add_imm_times dest imm times) = add_imm-Refines dest imm times
  run-Refines (xor_src dest src) = xor_src-Refines dest src
  run-Refines (adjust dest value) = add_imm-Refines dest value 1

run_all-Represents :
    (cs : List Command) (m : AlocToVsMap) (f : Facts)
    → Represents m f
    → ((run_all cs m).0 ≡ (meaning_all cs f).0) × Represents (run_all cs m).1 (meaning_all cs f).1
unfolding run_all meaning_all
run_all-Represents [] m f h = (refl, h)
run_all-Represents (c ∷ cs) m f h = (
  ap₂ ◌∷◌ (run-Refines m f h c).0 (run_all-Represents cs _ _ (run-Refines m f h c).1).0,
  (run_all-Represents cs _ _ (run-Refines m f h c).1).1,
)

empty-Represents : Represents [] no_facts
unfolding find
empty-Represents x = refl

constant-word : (n : ℕ) → add64 n (mul64 1 0) ≡ as_word n
unfolding add64 mul64
constant-word n = omega arith

constant_set-value :
    (o : Option ℕ) → constant_of_set (Option.map constant_set o) ≡ Option.map as_word o
constant_set-value none = refl
constant_set-value (some n) = ap some (constant-word n)

-- After any sequence of calls on the empty map the answers are those of the specification, and
-- getConstantValue gives at each location the number that the specification has there, as a 64-bit
-- pattern, and answers false where it has none.
pub run_all-meaning_all :
    (cs : List Command) (x : AlocType)
    → ((run_all cs []).0 ≡ (meaning_all cs no_facts).0)
      × (get_constant_value (run_all cs []).1 x
          ≡ Option.map as_word ((meaning_all cs no_facts).1 x))
unfolding get_constant_value
run_all-meaning_all cs x = (
  (run_all-Represents cs [] no_facts empty-Represents).0,
  rw ((run_all-Represents cs [] no_facts empty-Represents).1 x)
      (constant_set-value ((meaning_all cs no_facts).1 x)),
)
