-- ===== src/Mc/Defined.antt =====
-- When buildCFG makes its blocks, and when it reads an instruction out of data.
use llvm_mctoll.Base.{
  ℕ, true, ◌≡◌, refl, sym, subst, Option, none, some, ◌>>=◌, List, [], ◌∷◌, All, Bool-cases, inl,
  inr,
}
use llvm_mctoll.Mc.Cell.{McInstOrData, of_inst, of_data}
use llvm_mctoll.Mc.Raiser.{McInstRaiser, set_holds}
use llvm_mctoll.Mc.Cfg.{
  Analysis, Cfg, Entry, empty_cfg, close_block, add_inst, add_entry, add_entries, build_blocks,
  build_cfg, term_targets, last_entry,
}
use llvm_mctoll.Mc.Blocks.{IsBlock, flat, insts_onto, build_blocks-IsBlock}
use llvm_mctoll.Mc.Edges.{build_cfg-some}

-- A cell as its constructors make it.
pub data IsCell {Inst : Type 0} : McInstOrData Inst → Type 0 where
  inst_cell : (i : Inst) → IsCell (of_inst i)
  data_cell : (n : ℕ) → IsCell (of_data n)

module _ {Inst : Type 0} (mia : Analysis Inst) (r : McInstRaiser Inst) where
  -- There is a last block.
  abbrev Started : Cfg Inst → Type 0
  Started c = (b : List (ℕ × Inst)) × (bs : List (List (ℕ × Inst))) × (c.blocks ≡ b ∷ bs)

  abbrev Starts : Option (Cfg Inst) → Type 0
  Starts o = (d : Cfg Inst) × (o ≡ some d) × Started d

  close_block-some :
      (k' : ℕ) (e : McInstOrData Inst) (k : ℕ) (bs : List (List (ℕ × Inst))) (c : Cfg Inst)
      → IsCell e
      → (d : Cfg Inst) × (close_block mia r (some (k', e)) k bs c ≡ some d)
  unfolding ◌>>=◌
  close_block-some k' e k [] c h = (_, refl)
  close_block-some k' _ k (b ∷ bs) c (inst_cell i) = (_, refl)
  close_block-some k' _ k (b ∷ bs) c (data_cell n) = (_, refl)

  add_inst-Starts :
      (k' : ℕ) (e : McInstOrData Inst) (k : ℕ) (i : Inst) (c : Cfg Inst)
      → IsCell e
      → Started c
      → Starts (add_inst mia r (some (k', e)) k i c)
  unfolding add_inst ◌>>=◌
  add_inst-Starts k' e k i c h (b, bs, s) = elim (Bool-cases (set_holds k r.target_indices)) [
    | inl t ↦ rw (t, (close_block-some k' e k c.blocks c h).1) (_, refl, (_, _, refl))
    | inr t ↦ rw (t, s) (_, refl, (_, _, refl))
  ]

  add_entry-Starts :
      (k' : ℕ) (e' : McInstOrData Inst) (k : ℕ) (e : McInstOrData Inst) (c : Cfg Inst)
      → IsCell e'
      → IsCell e
      → Started c
      → Starts (add_entry mia r (some (k', e')) (k, e) c)
  unfolding add_entry ◌>>=◌
  add_entry-Starts k' e' k _ c h (inst_cell i) s = add_inst-Starts k' e' k i c h s
  add_entry-Starts k' e' k _ c h (data_cell n) s = (_, refl, s)

  add_entries-Starts :
      (k' : ℕ) (e' : McInstOrData Inst) (es : List (Entry Inst)) (c : Cfg Inst)
      → IsCell e'
      → All (λ p. IsCell p.1) es
      → Started c
      → Starts (add_entries mia r (some (k', e')) es c)
  unfolding add_entries ◌>>=◌
  add_entries-Starts k' e' [] c h a s = (_, refl, s)
  add_entries-Starts k' e' ((k, e) ∷ es) c h a s =
      rw (add_entry-Starts k' e' k e c h a.0 s).1
        (add_entries-Starts k e es _ a.0 a.1 (add_entry-Starts k' e' k e c h a.0 s).2)

  module _ (k : ℕ) (i : Inst) (es : List (Entry Inst)) (at_entry : r.inst_map ≡ (k, of_inst i) ∷ es)
      (target : set_holds k r.target_indices ≡ true) (cells : All (λ p. IsCell p.1) es) where
    first : Starts (add_entries mia r none ((k, of_inst i) ∷ es) (empty_cfg mia r))
    unfolding add_entries add_entry add_inst ◌>>=◌
    first = rw target (add_entries-Starts k (of_inst i) es _ (inst_cell i) cells (_, _, refl))

    loop : Starts (add_entries mia r none r.inst_map (empty_cfg mia r))
    loop = subst (λ m. Starts (add_entries mia r none m (empty_cfg mia r))) (sym at_entry) first

    build_blocks_defined :
        (ts : List ℕ)
        → term_targets mia r (last_entry mia r r.inst_map) ≡ some ts
        → (c : Cfg Inst) × (build_blocks mia r ≡ some c)
    unfolding build_blocks ◌>>=◌
    build_blocks_defined ts last = rw (loop.1, loop.2.2, last) (_, refl)

    -- buildCFG gives blocks and edges, no assertion failing, where the first entry of the map is an
    -- instruction and a recorded target, every other entry is an instruction or data, and the last
    -- one is an instruction other than a conditional branch. Each block begins with an instruction
    -- at a recorded target and goes on with instructions that are none; the blocks one behind the
    -- other are the instructions of the function in order, each once, without the data.
    pub build_cfg_defined :
        (ts : List ℕ)
        → term_targets mia r (last_entry mia r r.inst_map) ≡ some ts
        → (c : Cfg Inst) × (edges : List (List ℕ)) × (build_cfg mia r ≡ some (c, edges))
          × All (IsBlock r.target_indices) c.blocks
          × (flat c.blocks ≡ insts_onto r.inst_map [])
    build_cfg_defined ts last =
        let (c, made) = build_blocks_defined ts last in
        let (edges, done_) = build_cfg-some mia r c made in
        let (parts, order) = build_blocks-IsBlock mia r c made in (c, edges, done_, parts, order)
