-- ===== src/Mc/Cfg.antt =====
-- MCInstRaiser::buildCFG. What LLVM says of an instruction is the parameter Analysis. A raised
-- instruction is written as the pair of its index and the instruction that it is raised from.
use llvm_mctoll.Base.{
  ℕ, ◌-◌, ltb, leb, if◌then◌else◌, Bool, false, ◌&&◌, not, Option, none, some, ◌>>=◌, ◌>>◌, assert,
  List, [], ◌∷◌, length,
}
use llvm_mctoll.Mc.Cell.{McInstOrData, is_mc_inst, get_mc_inst}
use llvm_mctoll.Mc.Raiser.{McInstRaiser, map_insert, map_find, set_holds, is_mc_inst_in_range}

-- MCInstrAnalysis and the descriptions of instructions.
pub record Analysis (Inst : Type 0) : Type 0 where
  pub is_branch : Inst → Bool
  pub is_conditional_branch : Inst → Bool
  -- The target of a branch, from its address and size.
  pub evaluate_branch : Inst → ℕ → ℕ → Option ℕ
  pub is_return : Inst → Bool

-- The blocks, the last one first, each with its last instruction first; the number of a block is the
-- number of the blocks before it. `entry` is CurMBBEntryInstIndex.
pub record Cfg (Inst : Type 0) : Type 0 where
  pub blocks : List (List (ℕ × Inst))
  pub entry : ℕ
  pub targets : List (ℕ × List ℕ)
  pub numbers : List (ℕ × ℕ)

-- An entry of InstMap.
abbrev pub Entry : Type 0 → Type 0
Entry Inst = ℕ × McInstOrData Inst

module _ {Inst : Type 0} (mia : Analysis Inst) (r : McInstRaiser Inst) where
  abbrev pub empty_cfg : Cfg Inst
  empty_cfg = record { blocks = []; entry = 0; targets = []; numbers = [] }

  -- Target >= FuncStart && Target < FuncEnd
  abbrev in_body : ℕ → Bool
  in_body target = leb r.func_start target && ltb target r.func_end

  abbrev branch_targets : Inst → ℕ → Option ℕ → List ℕ
  branch_targets prev index none = []
  branch_targets prev index (some target) =
      if in_body target
      then target
        ∷ (if mia.is_conditional_branch prev && is_mc_inst_in_range r index then index ∷ [] else [])
      else []

  -- The targets of the instruction before the one at `index`.
  unfoldable pub targets_of : Inst → ℕ → ℕ → List ℕ
  targets_of prev prev_index index =
      if mia.is_branch prev
      then branch_targets prev index (mia.evaluate_branch prev prev_index (index - prev_index))
      else if is_mc_inst_in_range r index
      then index ∷ []
      else []

  -- PrevMCInstTargets: of an instruction; none behind data. std::prev of the first entry is not
  -- defined.
  abbrev pub prev_targets : Option (Entry Inst) → ℕ → Option (List ℕ)
  prev_targets none index = none
  prev_targets (some (prev_index, prev)) index =
      if is_mc_inst prev
      then (do i ← get_mc_inst prev; some (targets_of i prev_index index))
      else some []

  -- The two `insert` calls for the last block.
  abbrev pub record_last : List ℕ → List (List (ℕ × Inst)) → Cfg Inst → Cfg Inst
  record_last ts [] c = c
  record_last ts (b ∷ bs) c = record c {
    targets = map_insert (length bs) ts c.targets;
    numbers = map_insert c.entry (length bs) c.numbers;
  }

  abbrev pub close_block :
      Option (Entry Inst) → ℕ → List (List (ℕ × Inst)) → Cfg Inst → Option (Cfg Inst)
  close_block prev index [] c = some c
  close_block prev index (b ∷ bs) c = do
    ts ← prev_targets prev index
    some (record_last ts (b ∷ bs) c)

  abbrev pub open_block : ℕ → Cfg Inst → Cfg Inst
  open_block index c = record c { blocks = [] ∷ c.blocks; entry = index }

  -- MF.back().push_back; a function without blocks has no last one.
  abbrev pub push_back : ℕ × Inst → List (List (ℕ × Inst)) → Cfg Inst → Option (Cfg Inst)
  push_back i [] c = none
  push_back i (b ∷ bs) c = some (record c { blocks = (i ∷ b) ∷ bs })

  unfoldable pub add_inst : Option (Entry Inst) → ℕ → Inst → Cfg Inst → Option (Cfg Inst)
  add_inst prev index i c =
      if set_holds index r.target_indices
      then (do
        closed ← close_block prev index c.blocks c
        let opened = open_block index closed in push_back (index, i) opened.blocks opened)
      else push_back (index, i) c.blocks c

  -- The body of the loop over InstMap.
  unfoldable pub add_entry : Option (Entry Inst) → Entry Inst → Cfg Inst → Option (Cfg Inst)
  add_entry prev (index, e) c =
      if is_mc_inst e then (do i ← get_mc_inst e; add_inst prev index i c) else some c

  unfoldable pub add_entries :
      Option (Entry Inst) → List (Entry Inst) → Cfg Inst → Option (Cfg Inst)
  add_entries prev [] c = some c
  add_entries prev (e ∷ es) c = add_entry prev e c >>= λ d. add_entries (some e) es d

  abbrev pub last_entry : List (Entry Inst) → Option (Entry Inst)
  last_entry [] = none
  last_entry (e ∷ []) = some e
  last_entry (e ∷ d ∷ es) = last_entry (d ∷ es)

  abbrev target_in_body : Option ℕ → List ℕ
  target_in_body none = []
  target_in_body (some target) = if in_body target then target ∷ [] else []

  abbrev last_branch_targets : ℕ → Inst → Option (List ℕ)
  last_branch_targets index i = do
    assert (not (mia.is_conditional_branch i))
    some (target_in_body (mia.evaluate_branch i index (r.func_end - index)))

  -- TermMCInstTargets. The last entry is read as an instruction without a test.
  unfoldable pub term_targets : Option (Entry Inst) → Option (List ℕ)
  term_targets none = some []
  term_targets (some (index, e)) = do
    i ← get_mc_inst e
    if mia.is_branch i then last_branch_targets index i else some []

  abbrev pub finish : List (List (ℕ × Inst)) → Cfg Inst → Option (Cfg Inst)
  finish [] c = some c
  finish (b ∷ bs) c = do ts ← term_targets (last_entry r.inst_map); some (record_last ts (b ∷ bs) c)

  -- The blocks and the two maps.
  unfoldable pub build_blocks : Option (Cfg Inst)
  build_blocks = do c ← add_entries none r.inst_map empty_cfg; finish c.blocks c

  -- isReturnBlock: the last instruction returns.
  abbrev is_return_block : List (ℕ × Inst) → Bool
  is_return_block [] = false
  is_return_block ((index, i) ∷ b) = mia.is_return i

  -- The calls of addSuccessorWithoutProb for a block, as the numbers of the successors.
  abbrev pub successors : Bool → List (ℕ × ℕ) → List ℕ → List ℕ
  successors returns numbers [] = []
  successors returns numbers (t ∷ ts) =
      let rest = successors returns numbers ts in
      elim (map_find t numbers) [ none ↦ rest | some n ↦ if returns then rest else n ∷ rest ]

  -- The loop over the blocks, from the last number down: `none` where a block has no entry in the map
  -- of targets.
  abbrev pub add_edges : Cfg Inst → List (List (ℕ × Inst)) → Option (List (List ℕ))
  add_edges c [] = some []
  add_edges c (b ∷ bs) = add_edges c bs >>= λ rest. map_find (length bs) c.targets >>= λ ts.
      some (successors (is_return_block b) c.numbers ts ∷ rest)

  unfoldable pub build_cfg : Option (Cfg Inst × List (List ℕ))
  build_cfg = do c ← build_blocks; edges ← add_edges c c.blocks; some (c, edges)
