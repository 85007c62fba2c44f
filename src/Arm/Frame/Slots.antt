-- ===== src/Arm/Frame/Slots.antt =====
-- What searchStackObjects makes of the instructions of a block: which it drops, and which slot of
-- the frame it puts into an access.
use llvm_mctoll.Base.{
  ℕ, ◌+◌, Bool, true, false, ◌≡◌, refl, sym, Option, none, some, List, [], ◌∷◌, ◌++◌, Bool-cases,
  inl, inr, length, get_elem?, Ensures, Ensures-bind, Ensures-some, Ensures-mono, done, arith, suc,
  zero, subst,
}
use mathlib.Core.Option.{some-injective}
use llvm_mctoll.Base.Int.{ℤ, pos}
use llvm_mctoll.Arm.Target.{Register, Operand, frame_index, MachineInstr}
use llvm_mctoll.Arm.Builder.{get_operand, eqb_ℤ}
use llvm_mctoll.Arm.Frame.Identify.{
  StackObject, FrameInfo, identify_stack_op, nonneg, is_halfword_op,
}
use llvm_mctoll.Arm.Frame.Build.{
  Layout, moved_register, replace_sp_uses, erase_defs, Marked, Search, mark, mark_at, visit,
  visit_moved, visit_block, visit_blocks, slot_index, object_of, create_objects, keep_marked,
  place_operands, place_slot, place_block, place_blocks, no_search, search_stack_objects,
}

-- The place of an offset among the elements is the place of its object in the frame.
eqb_ℤ-eq : (a b : ℤ) → eqb_ℤ a b ≡ true → a ≡ b
eqb_ℤ-eq a b h = ground arith

abbrev HasOffset : ℤ → Option StackObject → Type 0
HasOffset off obj = (o : StackObject) × (obj ≡ some o) × (o.sp_offset ≡ off)

get_elem?-append :
    {A : Type 0} (xs : List A) (x : A) (ys : List A) → get_elem? (xs ++ x ∷ ys) (length xs) ≡ some x
get_elem?-append [] x ys = refl
get_elem?-append (y ∷ xs) x ys = get_elem?-append xs x ys

get_elem?-kept :
    {A : Type 0} (xs : List A) (ys : List A) (i : ℕ) (o : A)
    → get_elem? xs i ≡ some o
    → get_elem? (xs ++ ys) i ≡ some o
get_elem?-kept [] ys i o h = cc
get_elem?-kept (x ∷ xs) ys zero o h = h
get_elem?-kept (x ∷ xs) ys (suc i) o h = get_elem?-kept xs ys i o h

create_objects-kept :
    (es : List (ℤ × ℕ)) (objects : List StackObject) (i : ℕ) (o : StackObject)
    → get_elem? objects i ≡ some o
    → get_elem? (create_objects objects es) i ≡ some o
create_objects-kept [] objects i o h = h
create_objects-kept (e ∷ es) objects i o h =
    create_objects-kept es (objects ++ object_of e ∷ []) i o (get_elem?-kept objects _ i o h)

length-snoc : {A : Type 0} (xs : List A) (x : A) → length (xs ++ x ∷ []) ≡ length xs + 1
length-snoc [] x = refl
length-snoc (y ∷ xs) x = omega (arith, length-snoc xs x)

create_objects-slot :
    (off : ℤ) (es : List (ℤ × ℕ)) (objects : List StackObject) (i : ℕ)
    → slot_index off (length objects) es ≡ some i
    → HasOffset off (get_elem? (create_objects objects es) i)
create_objects-slot off [] objects i h = cc
create_objects-slot off ((k, s) ∷ es) objects i h = elim (Bool-cases (eqb_ℤ off k)) [
  | inl e ↦
      let at : length objects ≡ i = some-injective _ _ (rw e at h) in
      let here = get_elem?-append objects (object_of (k, s)) [] in
      (
        object_of (k, s),
        create_objects-kept es _ i _ (
            subst (λ n. get_elem? (objects ++ object_of (k, s) ∷ []) n ≡ some (object_of (k, s))) at
              here),
        sym (eqb_ℤ-eq off k e),
      )
  | inr n ↦
      create_objects-slot off es (objects ++ object_of (k, s) ∷ []) i
        (rw (length-snoc objects (object_of (k, s))) (rw n at h))
]

-- What becomes of one instruction, after the registers that hold the stack pointer are replaced in
-- it: it stays, where no place of the frame is found for it, or its operand 1 names an object of
-- the frame that lies at the offset found.
pub data Placed (fi fi' : FrameInfo) (mi mi' : MachineInstr) : Type 0 where
  kept :
      {o : ℤ}
      → identify_stack_op fi mi ≡ some o
      → nonneg o ≡ false
      → mi' ≡ mi
      → Placed fi fi' mi mi'
  placed :
      {o : ℤ} {i : ℕ}
      → identify_stack_op fi mi ≡ some o
      → nonneg o ≡ true
      → mi'.opcode ≡ mi.opcode
      → get_operand mi' 0 ≡ get_operand mi 0
      → get_operand mi' 1 ≡ some (frame_index (pos i))
      → HasOffset o (get_elem? fi'.objects i)
      → Placed fi fi' mi mi'

module _ (layout : Layout) (fi fi' : FrameInfo) where
  -- A block, instruction by instruction, from the registers that hold the stack pointer before it to
  -- those that hold it behind it. A definition of a register takes it off.
  pub data Rewritten
      : List Register → List MachineInstr → List MachineInstr → List Register → Type 0 where
    nothing_left : {regs : List Register} → Rewritten regs [] [] regs
    dropped :
        {mi : MachineInstr} {r : Register} {regs out : List Register} {mis mis' : List MachineInstr}
        → moved_register mi ≡ some (some r)
        → Rewritten (regs ++ r ∷ []) mis mis' out
        → Rewritten regs (mi ∷ mis) mis' out
    next :
        {mi mi' : MachineInstr} {regs out : List Register} {mis mis' : List MachineInstr}
        → moved_register mi ≡ some none
        → Placed fi fi' (replace_sp_uses layout fi regs mi) mi'
        → Rewritten (erase_defs (layout.num_explicit_defs mi) mi.operands regs) mis mis' out
        → Rewritten regs (mi ∷ mis) (mi' ∷ mis') out

  -- The blocks of a function, one for one.
  pub data RewrittenBlocks
      : List Register → List (List MachineInstr) → List (List MachineInstr) → Type 0 where
    no_blocks : {regs : List Register} → RewrittenBlocks regs [] []
    block :
        {regs out : List Register} {b b' : List MachineInstr} {bs bs' : List (List MachineInstr)}
        → Rewritten regs b b' out
        → RewrittenBlocks out bs bs'
        → RewrittenBlocks regs (b ∷ bs) (b' ∷ bs')

-- A mark is what identifyStackOp finds.
data IsMark (fi : FrameInfo) (mi : MachineInstr) : Marked → Type 0 where
  no_slot :
      {o : ℤ}
      → identify_stack_op fi mi ≡ some o
      → nonneg o ≡ false
      → IsMark fi mi (record { instr = mi; slot = none })
  slot_at :
      {o : ℤ}
      → identify_stack_op fi mi ≡ some o
      → nonneg o ≡ true
      → IsMark fi mi (record { instr = mi; slot = some o })

place_operands-shape :
    (half : Bool) (i : ℕ) (mos mos' : List Operand)
    → place_operands half i mos ≡ some mos'
    → (get_elem? mos' 0 ≡ get_elem? mos 0) × (get_elem? mos' 1 ≡ some (frame_index (pos i)))
place_operands-shape true i [] mos' h = cc
place_operands-shape true i (a ∷ []) mos' h = cc
place_operands-shape true i (a ∷ b ∷ []) mos' h = cc
place_operands-shape true i (a ∷ b ∷ c ∷ []) mos' h = cc
place_operands-shape true i (a ∷ b ∷ c ∷ d ∷ mos) mos' h =
    rw (← (some-injective _ _ h)) (refl, refl)
place_operands-shape false i [] mos' h = cc
place_operands-shape false i (a ∷ []) mos' h = cc
place_operands-shape false i (a ∷ b ∷ []) mos' h = cc
place_operands-shape false i (a ∷ b ∷ c ∷ mos) mos' h = rw (← (some-injective _ _ h)) (refl, refl)

module _ (layout : Layout) (fi : FrameInfo) (elements : List (ℤ × ℕ)) where
  abbrev built : FrameInfo
  built = record fi { objects = create_objects fi.objects elements }

  place_slot-Placed :
      (mi : MachineInstr) (m : Marked)
      → IsMark fi mi m
      → Ensures (Placed fi built mi) (place_slot layout fi elements m.instr m.slot)
  place_slot-Placed mi _ (no_slot e n) = done (kept e n refl)
  place_slot-Placed mi _ (slot_at {o} e n) = Ensures-bind _ _ λ i si. Ensures-bind _ _ λ mos pi.
      let shape = place_operands-shape (is_halfword_op mi.opcode) i mi.operands mos pi in
      done (placed e n refl shape.0 shape.1 (create_objects-slot o elements fi.objects i si))

  -- The registers behind an instruction that is not dropped.
  abbrev left : Search → MachineInstr → List Register
  left s mi = erase_defs (layout.num_explicit_defs mi) mi.operands s.assigned

  data Visited (s : Search) (mi : MachineInstr) : Search × Option Marked → Type 0 where
    was_moved :
        {s' : Search} {r : Register}
        → moved_register mi ≡ some (some r)
        → s'.assigned ≡ s.assigned ++ r ∷ []
        → Visited s mi (s', none)
    was_marked :
        {s' : Search} {m : Marked}
        → moved_register mi ≡ some none
        → s'.assigned ≡ left s mi
        → IsMark fi (replace_sp_uses layout fi s.assigned mi) m
        → Visited s mi (s', some m)

  mark_at-Visited :
      (s s' : Search) (mi : MachineInstr) (o : ℤ)
      → moved_register mi ≡ some none
      → s'.assigned ≡ left s mi
      → identify_stack_op fi (replace_sp_uses layout fi s.assigned mi) ≡ some o
      → Visited s mi (mark_at layout fi s' (replace_sp_uses layout fi s.assigned mi) o)
  mark_at-Visited s s' mi o mv l e = elim (Bool-cases (nonneg o)) [
    | inl n ↦ rw n (was_marked mv l (slot_at e n))
    | inr n ↦ rw n (was_marked mv l (no_slot e n))
  ]

  visit_moved-Visited :
      (moved : Option Register) (s : Search) (mi : MachineInstr)
      → moved_register mi ≡ some moved
      → Ensures (Visited s mi) (visit_moved layout fi moved s mi)
  unfolding mark
  visit_moved-Visited (some r) s mi mv = done (was_moved mv refl)
  visit_moved-Visited none s mi mv =
      Ensures-bind _ _ λ o e. done (mark_at-Visited s _ mi o mv refl e)

  visit-Visited : (s : Search) (mi : MachineInstr) → Ensures (Visited s mi) (visit layout fi s mi)
  unfolding visit
  visit-Visited s mi = Ensures-bind _ _ λ moved mv. visit_moved-Visited moved s mi mv

  abbrev PlacedAs : Search → List MachineInstr → Search × List Marked → Type 0
  PlacedAs s mis (s', ms) =
      Ensures (λ mis'. Rewritten layout fi built s.assigned mis mis' s'.assigned)
        (place_block layout fi elements ms)

  extend :
      (mi : MachineInstr) (mis : List MachineInstr) (ms : List Marked) (s s' s'' : Search)
      (m : Option Marked)
      → Visited s mi (s', m)
      → PlacedAs s' mis (s'', ms)
      → PlacedAs s (mi ∷ mis) (s'', keep_marked m ms)
  unfolding place_block
  extend mi mis ms s s' s'' _ (was_moved mv l) h =
      Ensures-mono
        (λ mis' r.
          dropped mv (subst (λ regs. Rewritten layout fi built regs mis mis' s''.assigned) l r))
        h
  extend mi mis ms s s' s'' _ (was_marked {m} mv l k) h = Ensures-bind _ _ λ mi' p.
      Ensures-bind _ _ λ mis' ps. done (
        next mv (Ensures-some (place_slot-Placed _ m k) p) (
          subst (λ regs. Rewritten layout fi built regs mis mis' s''.assigned) l
            (Ensures-some h ps)))

  visit_block-PlacedAs :
      (mis : List MachineInstr) (s : Search)
      → Ensures (PlacedAs s mis) (visit_block layout fi s mis)
  unfolding visit_block place_block
  visit_block-PlacedAs [] s = done (done nothing_left)
  visit_block-PlacedAs (mi ∷ mis) s = Ensures-bind _ _ λ (s', m) v. Ensures-bind _ _ λ (s'', ms) h.
      done (
        extend mi mis ms s s' s'' m (Ensures-some (visit-Visited s mi) v)
          (Ensures-some (visit_block-PlacedAs mis s') h))

  abbrev AllPlacedAs : Search → List (List MachineInstr) → Search × List (List Marked) → Type 0
  AllPlacedAs s bs (s', mss) =
      Ensures (RewrittenBlocks layout fi built s.assigned bs) (place_blocks layout fi elements mss)

  visit_blocks-AllPlacedAs :
      (bs : List (List MachineInstr)) (s : Search)
      → Ensures (AllPlacedAs s bs) (visit_blocks layout fi s bs)
  unfolding visit_blocks place_blocks
  visit_blocks-AllPlacedAs [] s = done (done no_blocks)
  visit_blocks-AllPlacedAs (b ∷ bs) s = Ensures-bind _ _ λ (s', ms) v.
      Ensures-bind _ _ λ (s'', mss) h. done (
        Ensures-bind _ _ λ b' p. Ensures-bind _ _ λ bs' ps. done (
          block (Ensures-some (Ensures-some (visit_block-PlacedAs b s) v) p)
            (Ensures-some (Ensures-some (visit_blocks-AllPlacedAs bs s') h) ps)))

ensured :
    (layout : Layout) (fi : FrameInfo) (mf : List (List MachineInstr))
    → Ensures
        (λ (mf', fi'). RewrittenBlocks layout fi fi' [] mf mf')
        (search_stack_objects layout fi mf)
unfolding search_stack_objects
ensured layout fi mf = Ensures-bind _ _ λ (s, marked) v. Ensures-bind _ _ λ mf' p.
    done
      (Ensures-some (Ensures-some (visit_blocks-AllPlacedAs layout fi s.elements mf no_search) v) p)

-- The pass over a function, where no assertion fails, keeps the blocks and, in each of them, the
-- instructions in their order: it drops a move of the stack pointer to a register; in the others it
-- replaces the uses of registers that hold the stack pointer since such a move; it then leaves an
-- instruction for which no place of the frame is found, and in each other it makes operand 1 name an
-- object of the new frame, which lies at the offset that identifyStackOp finds.
pub search_stack_objects-RewrittenBlocks :
    (layout : Layout) (fi fi' : FrameInfo) (mf mf' : List (List MachineInstr))
    → search_stack_objects layout fi mf ≡ some (mf', fi')
    → RewrittenBlocks layout fi fi' [] mf mf'
search_stack_objects-RewrittenBlocks layout fi fi' mf mf' e = Ensures-some (ensured layout fi mf) e
