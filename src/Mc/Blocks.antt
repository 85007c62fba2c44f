-- ===== src/Mc/Blocks.antt =====
-- The blocks that buildCFG makes: where they begin and what they hold.
use llvm_mctoll.Base.{
  ℕ, if◌then◌else◌, true, false, ◌≡◌, refl, Option, none, some, List, [], ◌∷◌, ◌++◌, All, Ensures,
  failed, done, Ensures-bind, Ensures-some, Ensures-mono, Bool-cases, inl, inr,
}
use llvm_mctoll.Mc.Cell.{McInstOrData, is_mc_inst, get_mc_inst}
use llvm_mctoll.Mc.Raiser.{McInstRaiser, set_holds}
use llvm_mctoll.Mc.Cfg.{
  Analysis, Cfg, Entry, empty_cfg, record_last, close_block, push_back, add_inst, add_entry,
  add_entries, finish, build_blocks,
}

-- A block whose first instruction is a target and whose others are not; the last one comes first.
pub data IsBlock {Inst : Type 0} (targets : List ℕ) : List (ℕ × Inst) → Type 0 where
  leader : {k : ℕ} {i : Inst} → set_holds k targets ≡ true → IsBlock targets ((k, i) ∷ [])
  follower :
      {k : ℕ} {i : Inst} {b : List (ℕ × Inst)}
      → set_holds k targets ≡ false
      → IsBlock targets b
      → IsBlock targets ((k, i) ∷ b)

-- The instructions of all blocks, the last one first.
abbrev pub flat : {Inst : Type 0} → List (List (ℕ × Inst)) → List (ℕ × Inst)
flat [] = []
flat (b ∷ bs) = b ++ flat bs

abbrev pub inst_onto : {Inst : Type 0} → ℕ → Option Inst → List (ℕ × Inst) → List (ℕ × Inst)
inst_onto k none acc = acc
inst_onto k (some i) acc = (k, i) ∷ acc

-- The instructions among the entries, without the data, the last one first.
abbrev pub insts_onto : {Inst : Type 0} → List (Entry Inst) → List (ℕ × Inst) → List (ℕ × Inst)
insts_onto [] acc = acc
insts_onto ((k, e) ∷ es) acc =
    insts_onto es (if is_mc_inst e then inst_onto k (get_mc_inst e) acc else acc)

module _ {Inst : Type 0} (mia : Analysis Inst) (r : McInstRaiser Inst) where
  abbrev Holds : List (ℕ × Inst) → Cfg Inst → Type 0
  Holds insts c = All (IsBlock r.target_indices) c.blocks × (flat c.blocks ≡ insts)

  record_last-blocks :
      (ts : List ℕ) (bs : List (List (ℕ × Inst))) (c : Cfg Inst)
      → (record_last mia r ts bs c).blocks ≡ c.blocks
  record_last-blocks ts [] c = refl
  record_last-blocks ts (b ∷ bs) c = refl

  close_block-blocks :
      (prev : Option (Entry Inst)) (index : ℕ) (bs : List (List (ℕ × Inst))) (c : Cfg Inst)
      → Ensures (λ d. d.blocks ≡ c.blocks) (close_block mia r prev index bs c)
  close_block-blocks prev index [] c = done refl
  close_block-blocks prev index (b ∷ bs) c = Ensures-bind _ _ (λ ts e. done refl)

  push_back-Holds :
      (k : ℕ) (i : Inst) (bs : List (List (ℕ × Inst))) (c : Cfg Inst)
      → set_holds k r.target_indices ≡ false
      → All (IsBlock r.target_indices) bs
      → Ensures (Holds ((k, i) ∷ flat bs)) (push_back mia r (k, i) bs c)
  push_back-Holds k i [] c h a = failed
  push_back-Holds k i (b ∷ bs) c h a = done ((follower h a.0, a.1), refl)

  add_inst-Holds :
      (prev : Option (Entry Inst)) (k : ℕ) (i : Inst) (c : Cfg Inst)
      → All (IsBlock r.target_indices) c.blocks
      → Ensures (Holds ((k, i) ∷ flat c.blocks)) (add_inst mia r prev k i c)
  unfolding add_inst
  add_inst-Holds prev k i c a = elim (Bool-cases (set_holds k r.target_indices)) [
    | inl e ↦ rw e (
        Ensures-bind _ _ (λ d closed.
          done (
            rw (Ensures-some (close_block-blocks prev k c.blocks c) closed) ((leader e, a), refl))))
    | inr e ↦ rw e (push_back-Holds k i c.blocks c e a)
  ]

  add_entry-Holds :
      (prev : Option (Entry Inst)) (k : ℕ) (e : McInstOrData Inst) (c : Cfg Inst)
      → All (IsBlock r.target_indices) c.blocks
      → Ensures (Holds (insts_onto ((k, e) ∷ []) (flat c.blocks))) (add_entry mia r prev (k, e) c)
  unfolding add_entry
  add_entry-Holds prev k e c a = elim (Bool-cases (is_mc_inst e)) [
    | inl h ↦ rw h (Ensures-bind _ _ (λ i read. rw read (add_inst-Holds prev k i c a)))
    | inr h ↦ rw h (done (a, refl))
  ]

  add_entries-Holds :
      (prev : Option (Entry Inst)) (es : List (Entry Inst)) (c : Cfg Inst)
      → All (IsBlock r.target_indices) c.blocks
      → Ensures (Holds (insts_onto es (flat c.blocks))) (add_entries mia r prev es c)
  unfolding add_entries
  add_entries-Holds prev [] c a = done (a, refl)
  add_entries-Holds prev ((k, e) ∷ es) c a = Ensures-bind _ _ (λ d added.
      rw (← (Ensures-some (add_entry-Holds prev k e c a) added).1) (
        add_entries-Holds (some (k, e)) es d (Ensures-some (add_entry-Holds prev k e c a) added).0))

  finish-blocks :
      (bs : List (List (ℕ × Inst))) (c : Cfg Inst)
      → Ensures (λ d. d.blocks ≡ c.blocks) (finish mia r bs c)
  finish-blocks [] c = done refl
  finish-blocks (b ∷ bs) c = Ensures-bind _ _ (λ ts e. done refl)

  build_blocks-Holds : Ensures (Holds (insts_onto r.inst_map [])) (build_blocks mia r)
  unfolding build_blocks
  build_blocks-Holds = Ensures-bind _ _ (λ c built.
      Ensures-mono
        (λ d same.
          rw same (Ensures-some (add_entries-Holds none r.inst_map (empty_cfg mia r) tt) built))
        (finish-blocks c.blocks c))

  -- Where the construction returns, each block begins with an instruction at a recorded target and
  -- goes on with instructions that are none, and the blocks one behind the other are the
  -- instructions of the function in order, each once, without the data.
  pub build_blocks-IsBlock :
      (c : Cfg Inst)
      → build_blocks mia r ≡ some c
      → All (IsBlock r.target_indices) c.blocks × (flat c.blocks ≡ insts_onto r.inst_map [])
  build_blocks-IsBlock c e = Ensures-some build_blocks-Holds e
