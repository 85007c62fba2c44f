-- ===== src/Mc/Sizes.antt =====
-- The order of the instruction map, and the sizes that getMCInstSize reads from it.
use llvm_mctoll.Base.{
  ℕ, ◌<◌, ◌-◌, ltb, ◌==◌, false, ◌≡◌, refl, subst, some, List, [], ◌∷◌, ◌++◌, Bool-cases, inl, inr,
  arith,
}
use llvm_mctoll.Mc.Cell.{McInstOrData}
use llvm_mctoll.Mc.Raiser.{
  McInstRaiser, make_raiser, map_insert, add_mc_inst_or_data, size_in, get_mc_inst_size,
}

-- The keys ascend, from above `lo`.
abbrev pub Above : {A : Type 0} → ℕ → List (ℕ × A) → Type 0
Above lo [] = Unit
Above lo ((k, v) ∷ m) = (lo < k) × Above k m

abbrev pub IsAscending : {A : Type 0} → List (ℕ × A) → Type 0
IsAscending [] = Unit
IsAscending ((k, v) ∷ m) = Above k m

module _ {A : Type 0} where
  map_insert-Above :
      (lo k : ℕ) (v : A) (m : List (ℕ × A)) → lo < k → Above lo m → Above lo (map_insert k v m)
  map_insert-Above lo k v [] h a = (h, tt)
  map_insert-Above lo k v ((j, w) ∷ m) h a = elim (Bool-cases (k == j)) [
    | inl e ↦ rw e a
    | inr e ↦ elim (Bool-cases (ltb k j)) [
      | inl l ↦ rw (e, l) (h, (ground arith, a.1))
      | inr l ↦ rw (e, l) (a.0, map_insert-Above j k v m (ground arith) a.1)
    ]
  ]

  map_insert-IsAscending :
      (k : ℕ) (v : A) (m : List (ℕ × A)) → IsAscending m → IsAscending (map_insert k v m)
  map_insert-IsAscending k v [] a = tt
  map_insert-IsAscending k v ((j, w) ∷ m) a = elim (Bool-cases (k == j)) [
    | inl e ↦ rw e a
    | inr e ↦ elim (Bool-cases (ltb k j)) [
      | inl l ↦ rw (e, l) (ground arith, a)
      | inr l ↦ rw (e, l) (map_insert-Above j k v m (ground arith) a)
    ]
  ]

  Above-middle :
      (lo offset : ℕ) (e : A) (pre post : List (ℕ × A))
      → Above lo (pre ++ (offset, e) ∷ post)
      → lo < offset
  Above-middle lo offset e [] post a = a.0
  Above-middle lo offset e ((j, d) ∷ pre) post a =
      omega (arith, a.0, Above-middle j offset e pre post a.1)

apart : (j offset : ℕ) → j < offset → (offset == j) ≡ false
apart j offset h = ground arith

module _ {Inst : Type 0} where
  -- The entries added one after the other to a new raiser.
  abbrev pub add_all : List (ℕ × McInstOrData Inst) → McInstRaiser Inst → McInstRaiser Inst
  add_all [] r = r
  add_all ((k, e) ∷ es) r = add_all es (add_mc_inst_or_data r k e)

  add_all-keeps :
      (es : List (ℕ × McInstOrData Inst)) (r : McInstRaiser Inst)
      → IsAscending r.inst_map
      → IsAscending (add_all es r).inst_map
  unfolding add_mc_inst_or_data
  add_all-keeps [] r a = a
  add_all-keeps ((k, e) ∷ es) r a = add_all-keeps es _ (map_insert-IsAscending k e r.inst_map a)

  add_all-end :
      (es : List (ℕ × McInstOrData Inst)) (r : McInstRaiser Inst)
      → (add_all es r).func_end ≡ r.func_end
  unfolding add_mc_inst_or_data
  add_all-end [] r = refl
  add_all-end ((k, e) ∷ es) r = add_all-end es (add_mc_inst_or_data r k e)

  -- The offset of the next entry, or the end of the function.
  abbrev pub next_offset : ℕ → List (ℕ × McInstOrData Inst) → ℕ
  next_offset end [] = end
  next_offset end ((k, e) ∷ m) = k

  size_in-next :
      (end offset : ℕ) (e : McInstOrData Inst) (pre post : List (ℕ × McInstOrData Inst))
      → IsAscending (pre ++ (offset, e) ∷ post)
      → offset < next_offset end post
      → size_in end offset (pre ++ (offset, e) ∷ post) ≡ some (next_offset end post - offset)
  size_in-next end offset e [] [] a h = ground arith
  size_in-next end offset e [] ((k, d) ∷ post) a h = ground arith
  size_in-next end offset e ((j, d) ∷ []) post a h =
      rw (apart j offset a.0) (size_in-next end offset e [] post a.1 h)
  size_in-next end offset e ((j, d) ∷ (k, c) ∷ pre) post a h =
      rw (apart j offset (Above-middle j offset e ((k, c) ∷ pre) post a))
        (size_in-next end offset e ((k, c) ∷ pre) post a.1 h)

  -- Whatever was added, and in whatever order: the size at an entry's offset is the distance to the
  -- next entry of the map, or to the end of the function behind the last one, where that end lies
  -- behind the offset.
  pub get_mc_inst_size-add_all :
      (es : List (ℕ × McInstOrData Inst)) (start end offset : ℕ) (e : McInstOrData Inst)
      (pre post : List (ℕ × McInstOrData Inst))
      → (add_all es (make_raiser start end)).inst_map ≡ pre ++ (offset, e) ∷ post
      → offset < next_offset end post
      → get_mc_inst_size (add_all es (make_raiser start end)) offset
        ≡ some (next_offset end post - offset)
  unfolding get_mc_inst_size
  get_mc_inst_size-add_all es start end offset e pre post split h =
      rw (add_all-end es (make_raiser start end), split)
        (size_in-next end offset e pre post
          (subst IsAscending split (add_all-keeps es (make_raiser start end) tt)) h)
