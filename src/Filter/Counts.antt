-- ===== src/Filter/Counts.antt =====
-- How many entries a name has in the two lists.
use mathlib.Core.Bool.{true≢false}
use llvm_mctoll.Base.{
  ℕ, ◌+◌, ◌-◌, ◌≤◌, ◌==◌, if◌then◌else◌, Bool, true, false, ◌≡◌, refl, ap, ◌∙◌, List, [], ◌∷◌, ◌++◌,
  Bool-cases, inl, inr, ==_iff, arith,
}
use llvm_mctoll.Filter.Lists.{
  FuncInfo, FunctionFilter, find_func_info_by_symbol, erase_function_by_symbol,
  add_excluded_function, add_included_function, is_found,
}

module _ {FunctionType Function : Type 0} where
  -- The number of entries of a name.
  abbrev pub count : ℕ → List (FuncInfo FunctionType Function) → ℕ
  count sym [] = 0
  count sym (f ∷ fs) = (if f.sym_name == sym then 1 else 0) + count sym fs

  count-append :
      (sym : ℕ) (fs gs : List (FuncInfo FunctionType Function))
      → count sym (fs ++ gs) ≡ count sym fs + count sym gs
  count-append sym [] gs = omega arith
  count-append sym (f ∷ fs) gs = omega (arith, count-append sym fs gs)

  count-found :
      (sym : ℕ) (fs : List (FuncInfo FunctionType Function))
      → is_found (find_func_info_by_symbol sym fs) ≡ false
      → count sym fs ≡ 0
  unfolding find_func_info_by_symbol
  count-found sym [] h = refl
  count-found sym (f ∷ fs) h = elim (Bool-cases (f.sym_name == sym)) [
    | inl e ↦ absurd (true≢false (rw e at h))
    | inr e ↦ rw e (omega (arith, count-found sym fs (rw e at h)))
  ]

  count-erase :
      (sym other : ℕ) (fs : List (FuncInfo FunctionType Function))
      → count other (erase_function_by_symbol sym fs)
        ≡ (if sym == other then count other fs - 1 else count other fs)
  unfolding erase_function_by_symbol
  count-erase sym other [] = ground arith
  count-erase sym other (f ∷ fs) = elim (Bool-cases (f.sym_name == sym)) [
    | inl e ↦ rw e (ground arith)
    | inr e ↦ rw e (ground (arith, count-erase sym other fs))
  ]

  found-count :
      (sym : ℕ) (fs : List (FuncInfo FunctionType Function))
      → count sym fs ≡ 0
      → is_found (find_func_info_by_symbol sym fs) ≡ false
  unfolding find_func_info_by_symbol
  found-count sym [] h = refl
  found-count sym (f ∷ fs) h = elim (Bool-cases (f.sym_name == sym)) [
    | inl e ↦ absurd (omega (arith, rw e at h))
    | inr e ↦ rw e (found-count sym fs (omega (arith, rw e at h)))
  ]

  erase_found :
      (b : Bool) (sym other : ℕ) (fs : List (FuncInfo FunctionType Function))
      → is_found (find_func_info_by_symbol sym fs) ≡ b
      → count other (if b then erase_function_by_symbol sym fs else fs)
        ≡ (if sym == other then count other fs - 1 else count other fs)
  erase_found true sym other fs h = count-erase sym other fs
  erase_found false sym other fs h = elim (Bool-cases (sym == other)) [
    | inl e ↦ rw (e, ← (==_iff sym other).0 e, count-found sym fs h) refl
    | inr e ↦ rw e
  ]

  -- Excluding a name adds one entry of it to the excluded functions and takes one away from the
  -- included ones, if there is one; the entries of other names stay.
  pub add_excluded_function-count :
      (filter : FunctionFilter FunctionType Function) (sym : ℕ) (type : FunctionType)
      (function : Function) (other : ℕ)
      → (count other (add_excluded_function filter sym type function).excluded
          ≡ count other filter.excluded + (if sym == other then 1 else 0))
        × (count other (add_excluded_function filter sym type function).included ≡ (
            if sym == other then count other filter.included - 1 else count other filter.included))
  unfolding add_excluded_function
  add_excluded_function-count filter sym type function other = (
    rw (count-append other filter.excluded _) (omega arith),
    erase_found _ sym other filter.included refl,
  )

  add_included_function-count :
      (filter : FunctionFilter FunctionType Function) (sym : ℕ) (type : FunctionType)
      → count sym filter.excluded ≡ 0
      → (count sym (add_included_function filter sym type).included ≡ count sym filter.included + 1)
        × (count sym (add_included_function filter sym type).excluded ≡ 0)
  unfolding add_included_function
  add_included_function-count filter sym type h =
      rw (found-count sym filter.excluded h)
        (rw (count-append sym filter.included _, (==_iff sym sym).1 refl) (omega arith), h)

  -- A name that is included twice and then excluded is in both lists, where it was in the list of
  -- excluded functions before in no entry.
  pub exclude_twice_included :
      (filter : FunctionFilter FunctionType Function) (sym : ℕ) (type : FunctionType)
      (function : Function)
      → count sym filter.excluded ≡ 0
      → (1
          ≤ count sym
              (add_excluded_function
                (add_included_function (add_included_function filter sym type) sym type)
                sym
                type
                function).included)
        × (1
            ≤ count sym
                (add_excluded_function
                  (add_included_function (add_included_function filter sym type) sym type)
                  sym
                  type
                  function).excluded)
  exclude_twice_included filter sym type function h =
      (omega (arith, gone, second), omega (arith, kept))
    where
      once : FunctionFilter FunctionType Function
      once = add_included_function filter sym type

      twice : FunctionFilter FunctionType Function
      twice = add_included_function once sym type

      first :
          (count sym once.included ≡ count sym filter.included + 1) × (count sym once.excluded ≡ 0)
      first = add_included_function-count filter sym type h

      second : count sym twice.included ≡ count sym filter.included + 1 + 1
      second = (add_included_function-count once sym type first.1).0 ∙ ap (λ n. n + 1) first.0

      kept :
          count sym (add_excluded_function twice sym type function).excluded
          ≡ count sym twice.excluded + 1
      kept =
          rw ((==_iff sym sym).1 refl) at
            ((add_excluded_function-count twice sym type function sym).0)

      gone :
          count sym (add_excluded_function twice sym type function).included
          ≡ count sym twice.included - 1
      gone =
          rw ((==_iff sym sym).1 refl) at
            ((add_excluded_function-count twice sym type function sym).1)
