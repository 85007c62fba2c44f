-- ===== src/Arm/Frame/Built.antt =====
-- searchStackObjects as a whole: what it makes of the frame, and when it returns.
use llvm_mctoll.Base.{
  ℕ, ltb, if◌then◌else◌, Bool, true, ◌||◌, not, ◌≡◌, >>=_some, refl, sym, ap, ◌∙◌, Option, none,
  some, List, [], ◌∷◌, ◌++◌, ◌>>=◌, map, Bool-cases, inl, inr, length, All, Ensures, Ensures-bind,
  Ensures-some, done,
}
use mathlib.Core.Option.{some-injective}
use mathlib.Core.Bool.{true≢false}
use mathlib.Core.List.{append-nil, append_assoc}
use llvm_mctoll.Base.Int.{ℤ}
use llvm_mctoll.Arm.Target.{Register, Operand, reg, imm, frame_index, metadata, MachineInstr}
use llvm_mctoll.Arm.Builder.{get_operand}
use llvm_mctoll.Arm.Frame.Identify.{
  StackObject, FrameInfo, identify_stack_op, base_offset, nonneg, minus_one, is_halfword_op,
  is_load_op, is_store_op, is_add_op,
}
use llvm_mctoll.Arm.Frame.Build.{
  Layout, Marked, Search, object_of, create_objects, place_operands, keep_marked, mark, mark_at,
  visit_moved, visit, visit_block, visit_blocks, place_slot, place_block, place_blocks, no_search,
  search_stack_objects,
}
use llvm_mctoll.Arm.Frame.Elements.{
  Descending, HasSlot, add_element-Descending, add_element-HasSlot, add_element-keeps,
  place_operands-some,
}

not_minus_one : (o : ℤ) → minus_one ≡ o → nonneg o ≡ true → ⊥
not_minus_one o e n = true≢false (sym n ∙ ap nonneg (sym e))

module _ (layout : Layout) (fi : FrameInfo) where
  abbrev CanPlace : MachineInstr → Type 0
  CanPlace mi =
      (i : ℕ)
      → (mos : List Operand) × (place_operands (is_halfword_op mi.opcode) i mi.operands ≡ some mos)

  third :
      (half : Bool) (mi : MachineInstr)
      → half ≡ true
      → get_operand mi (if half then 3 else 2) ≡ get_operand mi 3
  third half mi h = rw h refl

  base_offset-third :
      (mi : MachineInstr) (mo : Operand) (o : ℤ)
      → base_offset fi mi mo ≡ some o
      → nonneg o ≡ true
      → (m : Operand) × (get_operand mi (if is_halfword_op mi.opcode then 3 else 2) ≡ some m)
  unfolding base_offset
  base_offset-third mi (reg r d) o e n = let got = >>=_some _ _ _ e in (got.0, got.1)
  base_offset-third mi (imm z) o e n = absurd (not_minus_one o (some-injective _ _ e) n)
  base_offset-third mi (frame_index z) o e n = absurd (not_minus_one o (some-injective _ _ e) n)
  base_offset-third mi (metadata z) o e n = absurd (not_minus_one o (some-injective _ _ e) n)

  identify_stack_op-CanPlace :
      (mi : MachineInstr) (o : ℤ) → identify_stack_op fi mi ≡ some o → nonneg o ≡ true → CanPlace mi
  unfolding identify_stack_op
  identify_stack_op-CanPlace mi o e n i =
      elim (Bool-cases
        (not (is_load_op mi.opcode || is_store_op mi.opcode || is_add_op mi.opcode))) [
          | inl t ↦ absurd (not_minus_one o (some-injective _ _ (rw t at e)) n)
          | inr t ↦ elim (Bool-cases (ltb (length mi.operands) 3)) [
            | inl l ↦ absurd (not_minus_one o (some-injective _ _ (rw (t, l) at e)) n)
            | inr l ↦
                let got = >>=_some _ _ _ (rw (t, l) at e) in
                place_operands-some (is_halfword_op mi.opcode) i mi.operands l λ half.
                  (let last = base_offset-third mi got.0 o got.2 n in
                    (last.0, sym (third _ mi half) ∙ last.1))
          ]
        ]

  -- A mark that place_slot can carry out, where the map is `es`.
  abbrev Good : List (ℤ × ℕ) → MachineInstr → Option ℤ → Type 0
  Good es mi none = Unit
  Good es mi (some o) = HasSlot o (length fi.objects) es × CanPlace mi

  abbrev Grows : List (ℤ × ℕ) → List (ℤ × ℕ) → Type 0
  Grows es es' =
      ((k : ℤ) → HasSlot k (length fi.objects) es → HasSlot k (length fi.objects) es')
      × (Descending es → Descending es')

  Grows-refl : (es : List (ℤ × ℕ)) → Grows es es
  Grows-refl es = (λ k h. h, λ d. d)

  Grows-trans : (es es' es'' : List (ℤ × ℕ)) → Grows es es' → Grows es' es'' → Grows es es''
  Grows-trans es es' es'' g h = (λ k x. h.0 k (g.0 k x), λ d. h.1 (g.1 d))

  Good-mono :
      (es es' : List (ℤ × ℕ)) (mi : MachineInstr) (slot : Option ℤ)
      → Grows es es'
      → Good es mi slot
      → Good es' mi slot
  Good-mono es es' mi none g h = tt
  Good-mono es es' mi (some o) g h = (g.0 o h.0, h.1)

  abbrev GoodMarks : List (ℤ × ℕ) → List Marked → Type 0
  GoodMarks es ms = All (λ m. Good es m.instr m.slot) ms

  abbrev GoodOption : List (ℤ × ℕ) → Option Marked → Type 0
  GoodOption es none = Unit
  GoodOption es (some m) = Good es m.instr m.slot

  abbrev StepFrom : Search → Search × Option Marked → Type 0
  StepFrom s (s', m) = Grows s.elements s'.elements × GoodOption s'.elements m

  mark_at-StepFrom :
      (s : Search) (mi : MachineInstr) (o : ℤ)
      → identify_stack_op fi mi ≡ some o
      → StepFrom s (mark_at layout fi s mi o)
  mark_at-StepFrom s mi o e = elim (Bool-cases (nonneg o)) [
    | inl n ↦ rw n (
      (λ k h. add_element-keeps k o _ _ s.elements h, add_element-Descending o _ s.elements),
      (add_element-HasSlot o _ _ s.elements, identify_stack_op-CanPlace mi o e n),
    )
    | inr n ↦ rw n (Grows-refl s.elements, tt)
  ]

  visit_moved-StepFrom :
      (moved : Option Register) (s : Search) (mi : MachineInstr)
      → Ensures (StepFrom s) (visit_moved layout fi moved s mi)
  unfolding mark
  visit_moved-StepFrom (some r) s mi = done (Grows-refl s.elements, tt)
  visit_moved-StepFrom none s mi = Ensures-bind _ _ λ o e. done (mark_at-StepFrom _ _ o e)

  visit-StepFrom : (s : Search) (mi : MachineInstr) → Ensures (StepFrom s) (visit layout fi s mi)
  unfolding visit
  visit-StepFrom s mi = Ensures-bind _ _ λ moved mv. visit_moved-StepFrom moved s mi

  abbrev BlockFrom : Search → Search × List Marked → Type 0
  BlockFrom s (s', ms) = Grows s.elements s'.elements × GoodMarks s'.elements ms

  GoodMarks-mono :
      (es es' : List (ℤ × ℕ)) (ms : List Marked) → Grows es es' → GoodMarks es ms → GoodMarks es' ms
  GoodMarks-mono es es' [] g h = tt
  GoodMarks-mono es es' (m ∷ ms) g h =
      (Good-mono es es' m.instr m.slot g h.0, GoodMarks-mono es es' ms g h.1)

  keep_marked-GoodMarks :
      (es es' : List (ℤ × ℕ)) (m : Option Marked) (ms : List Marked)
      → Grows es es'
      → GoodOption es m
      → GoodMarks es' ms
      → GoodMarks es' (keep_marked m ms)
  keep_marked-GoodMarks es es' none ms g h k = k
  keep_marked-GoodMarks es es' (some m) ms g h k = (Good-mono es es' m.instr m.slot g h, k)

  visit_block-BlockFrom :
      (mis : List MachineInstr) (s : Search) → Ensures (BlockFrom s) (visit_block layout fi s mis)
  unfolding visit_block
  visit_block-BlockFrom [] s = done (Grows-refl s.elements, tt)
  visit_block-BlockFrom (mi ∷ mis) s = Ensures-bind _ _ λ (s', m) v. Ensures-bind _ _ λ (s'', ms) h.
      let one = Ensures-some (visit-StepFrom s mi) v in
      let rest = Ensures-some (visit_block-BlockFrom mis s') h in
      done (
        Grows-trans s.elements s'.elements s''.elements one.0 rest.0,
        keep_marked-GoodMarks s'.elements s''.elements m ms rest.0 one.1 rest.1,
      )

  abbrev BlocksFrom : Search → Search × List (List Marked) → Type 0
  BlocksFrom s (s', mss) = Grows s.elements s'.elements × All (GoodMarks s'.elements) mss

  visit_blocks-BlocksFrom :
      (bs : List (List MachineInstr)) (s : Search)
      → Ensures (BlocksFrom s) (visit_blocks layout fi s bs)
  unfolding visit_blocks
  visit_blocks-BlocksFrom [] s = done (Grows-refl s.elements, tt)
  visit_blocks-BlocksFrom (b ∷ bs) s = Ensures-bind _ _ λ (s', ms) v.
      Ensures-bind _ _ λ (s'', mss) h.
        let one = Ensures-some (visit_block-BlockFrom b s) v in
        let rest = Ensures-some (visit_blocks-BlocksFrom bs s') h in
        done (
          Grows-trans s.elements s'.elements s''.elements one.0 rest.0,
          (GoodMarks-mono s'.elements s''.elements ms rest.0 one.1, rest.1),
        )

  place_slot-some :
      (es : List (ℤ × ℕ)) (mi : MachineInstr) (slot : Option ℤ)
      → Good es mi slot
      → (mi' : MachineInstr) × (place_slot layout fi es mi slot ≡ some mi')
  unfolding ◌>>=◌
  place_slot-some es mi none h = (_, refl)
  place_slot-some es mi (some o) h = rw (h.0.1, (h.1 h.0.0).1) (_, refl)

  place_block-some :
      (es : List (ℤ × ℕ)) (ms : List Marked)
      → GoodMarks es ms
      → (b : List MachineInstr) × (place_block layout fi es ms ≡ some b)
  unfolding place_block ◌>>=◌
  place_block-some es [] h = (_, refl)
  place_block-some es (m ∷ ms) h =
      rw ((place_slot-some es m.instr m.slot h.0).1, (place_block-some es ms h.1).1) (_, refl)

  place_blocks-some :
      (es : List (ℤ × ℕ)) (mss : List (List Marked))
      → All (GoodMarks es) mss
      → (bs : List (List MachineInstr)) × (place_blocks layout fi es mss ≡ some bs)
  unfolding place_blocks ◌>>=◌
  place_blocks-some es [] h = (_, refl)
  place_blocks-some es (ms ∷ mss) h =
      rw ((place_block-some es ms h.0).1, (place_blocks-some es mss h.1).1) (_, refl)

  -- Where the walk over the instructions meets no failed assertion, the pass returns: each marked
  -- instruction has an element, and operands that can be put into place.
  pub search_stack_objects-some :
      (mf : List (List MachineInstr)) (s : Search) (marked : List (List Marked))
      → visit_blocks layout fi no_search mf ≡ some (s, marked)
      → (mf' : List (List MachineInstr)) × (search_stack_objects layout fi mf
          ≡ some (mf', record fi { objects = create_objects fi.objects s.elements }))
  unfolding search_stack_objects ◌>>=◌
  search_stack_objects-some mf s marked e =
      let good = Ensures-some (visit_blocks-BlocksFrom mf no_search) e in
      rw (e, (place_blocks-some s.elements marked good.1).1) (_, refl)

  create_objects-append :
      (es : List (ℤ × ℕ)) (objects : List StackObject)
      → create_objects objects es ≡ objects ++ map object_of es
  create_objects-append [] objects = sym (append-nil objects)
  create_objects-append (e ∷ es) objects =
      create_objects-append es (objects ++ object_of e ∷ [])
      ∙ append_assoc objects (object_of e ∷ []) (map object_of es)

  abbrev DescendingBehind : List (List MachineInstr) × FrameInfo → Type 0
  DescendingBehind (mf', fi') =
      (es : List (ℤ × ℕ)) × (fi'.objects ≡ fi.objects ++ map object_of es) × Descending es

  ensured_descending :
      (mf : List (List MachineInstr)) → Ensures DescendingBehind (search_stack_objects layout fi mf)
  unfolding search_stack_objects
  ensured_descending mf = Ensures-bind _ _ λ (s, marked) v. Ensures-bind _ _ λ mf' p. done (
    s.elements,
    create_objects-append s.elements fi.objects,
    (Ensures-some (visit_blocks-BlocksFrom mf no_search) v).0.1 tt,
  )

  -- The new objects of the frame, behind those that were there, descend: no two of them lie at the
  -- same offset.
  pub search_stack_objects-Descending :
      (mf mf' : List (List MachineInstr)) (fi' : FrameInfo)
      → search_stack_objects layout fi mf ≡ some (mf', fi')
      → (es : List (ℤ × ℕ)) × (fi'.objects ≡ fi.objects ++ map object_of es) × Descending es
  search_stack_objects-Descending mf mf' fi' e = Ensures-some (ensured_descending mf) e
