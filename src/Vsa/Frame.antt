-- ===== src/Vsa/Frame.antt =====
-- What a call leaves alone, whatever sets the map holds.
use llvm_mctoll.Base.{
  ℕ, ◌==◌, if◌then◌else◌, Bool, true, false, ◌||◌, ◌≡◌, refl, Option, none, some, arith,
}
use llvm_mctoll.Vsa.Aloc.{AlocType, eq_aloc}
use llvm_mctoll.Vsa.ValueSet.{ValueSet}
use llvm_mctoll.Vsa.Analysis.{
  AlocToVsMap, find, assign, on_found, assign_zero_ric, start_at_zero, try_insert_value,
  assign_value_to_src, assign_value_const, add_value_with_src, add_value_with_src_times,
  add_value_with_imm, add_value_with_imm_times, adjust_vs, xor_value_with_src,
}
use llvm_mctoll.Vsa.Facts.{
  Command, try_insert, assign_src, assign_const, add_src, add_src_times, add_imm, add_imm_times,
  xor_src, adjust, run,
}

-- The locations that a call may change.
abbrev pub touches : Command → AlocType → Bool
touches (try_insert dest value) x = eq_aloc x dest
touches (assign_src dest src) x = eq_aloc x dest || eq_aloc x src
touches (assign_const dest val) x = eq_aloc x dest
touches (add_src dest src) x = eq_aloc x dest
touches (add_src_times dest src times) x = eq_aloc x dest
touches (add_imm dest imm) x = eq_aloc x dest
touches (add_imm_times dest imm times) x = eq_aloc x dest
touches (xor_src dest src) x = eq_aloc x dest
touches (adjust dest value) x = eq_aloc x dest

or-false : (a b : Bool) → (a || b) ≡ false → (a ≡ false) × (b ≡ false)
or-false a b h = ground arith

module _ (m : AlocToVsMap) (x : AlocType) where
  abbrev Same : AlocToVsMap → Type 0
  Same m' = find m' x ≡ find m x

  assign-Same :
      (m' : AlocToVsMap) (dest : AlocType) (s : ValueSet)
      → eq_aloc x dest ≡ false
      → Same m'
      → Same (assign m' dest s)
  unfolding find assign
  assign-Same m' dest s h k = rw h k

  on_found-Same :
      (o : Option ValueSet) (missing : Bool × AlocToVsMap) (found : ValueSet → Bool × AlocToVsMap)
      → Same missing.1
      → ((s : ValueSet) → Same (found s).1)
      → Same (on_found o missing found).1
  on_found-Same none missing found h k = h
  on_found-Same (some s) missing found h k = k s

  if-Same :
      (b : Bool) (y z : Bool × AlocToVsMap) → Same y.1 → Same z.1 → Same (if b then y else z).1
  if-Same true y z h k = h
  if-Same false y z h k = k

  start-Same : (dest : AlocType) → eq_aloc x dest ≡ false → Same (start_at_zero m dest)
  unfolding start_at_zero assign_zero_ric
  start-Same dest h = on_found-Same _ _ _ (assign-Same m dest _ h refl) (λ s. refl)

  add_imm-Same :
      (dest : AlocType) (imm times : ℕ)
      → eq_aloc x dest ≡ false
      → Same (add_value_with_imm_times m dest imm times).1
  unfolding add_value_with_imm_times
  add_imm-Same dest imm times h =
      if-Same (times == 0) _ _ (start-Same dest h) (assign-Same _ dest _ h (start-Same dest h))

  add_src-Same :
      (dest src : AlocType) (times : ℕ)
      → eq_aloc x dest ≡ false
      → Same (add_value_with_src_times m dest src times).1
  unfolding add_value_with_src_times
  add_src-Same dest src times h = if-Same (times == 0) _ _ (start-Same dest h) (
      on_found-Same _ _ _ (start-Same dest h) (λ s.
        if-Same (times == 1) _ _ (assign-Same _ dest _ h (start-Same dest h))
          (assign-Same _ dest _ h (start-Same dest h))))

  assign_src-Same :
      (dest src : AlocType)
      → eq_aloc x dest ≡ false
      → eq_aloc x src ≡ false
      → Same (assign_value_to_src m dest src).1
  unfolding assign_value_to_src assign_zero_ric
  assign_src-Same dest src h k =
      on_found-Same _ _ _ (assign-Same _ dest _ h (assign-Same m src _ k refl))
        (λ s. assign-Same m dest s h refl)

-- A call changes the set of no location but its destination and, for assignValueToSrc, its source,
-- in every map, also one with sets that are no constants.
pub run-find :
    (c : Command) (m : AlocToVsMap) (x : AlocType)
    → touches c x ≡ false
    → find (run c m).1 x ≡ find m x
unfolding run try_insert_value assign_value_const add_value_with_src add_value_with_imm adjust_vs
    xor_value_with_src assign_zero_ric
run-find (try_insert dest value) m x h =
    on_found-Same m x _ _ _ (assign-Same m x m dest _ h refl) (λ s. refl)
run-find (assign_src dest src) m x h =
    assign_src-Same m x dest src (or-false _ _ h).0 (or-false _ _ h).1
run-find (assign_const dest val) m x h = assign-Same m x m dest _ h refl
run-find (add_src dest src) m x h = add_src-Same m x dest src 1 h
run-find (add_src_times dest src times) m x h = add_src-Same m x dest src times h
run-find (add_imm dest imm) m x h = add_imm-Same m x dest imm 1 h
run-find (add_imm_times dest imm times) m x h = add_imm-Same m x dest imm times h
run-find (xor_src dest src) m x h =
    if-Same m x (eq_aloc dest src) _ _ (assign-Same m x m dest _ h refl) refl
run-find (adjust dest value) m x h = add_imm-Same m x dest value 1 h
