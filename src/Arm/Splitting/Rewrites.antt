-- ===== src/Arm/Splitting/Rewrites.antt =====
-- The pass over blocks and functions.
use mathlib.Core.List.{append-nil}
use llvm_mctoll.Base.{
  ℕ, ◌≤◌, ◌≡◌, List, [], ◌∷◌, ◌++◌, All, some, arith, Ensures, Ensures-bind, Ensures-some, done,
}
use llvm_mctoll.Arm.Target.{MachineInstr, Target}
use llvm_mctoll.Arm.Builder.{Split}
use llvm_mctoll.Arm.Splitting.Outcome.{IsPlain, Outcome, kept, replaced, split_instr-Outcome}
use llvm_mctoll.Arm.Splitting.Pass.{in_place, split_block, split_machine_function}

-- The second block comes from the first by keeping some instructions and putting at least one plain
-- instruction in place of each of the others; the order stays.
pub data Rewrites : List MachineInstr → List MachineInstr → Type 0 where
  empty : Rewrites [] []
  keep :
      {mi : MachineInstr} {mis out : List MachineInstr}
      → Rewrites mis out
      → Rewrites (mi ∷ mis) (mi ∷ out)
  replace :
      {mi m : MachineInstr} {mis out : List MachineInstr} (ms : List MachineInstr)
      → All (λ e. IsPlain e.opcode) (m ∷ ms)
      → Rewrites mis out
      → Rewrites (mi ∷ mis) (m ∷ (ms ++ out))

-- Block by block.
pub data RewritesAll : List (List MachineInstr) → List (List MachineInstr) → Type 0 where
  no_blocks : RewritesAll [] []
  block :
      {mbb out : List MachineInstr} {mbbs outs : List (List MachineInstr)}
      → Rewrites mbb out
      → RewritesAll mbbs outs
      → RewritesAll (mbb ∷ mbbs) (out ∷ outs)

Outcome-Rewrites :
    {v : ℕ} {s : Split} {mi : MachineInstr} {mis out : List MachineInstr} (t : Target)
    → Outcome v s
    → Rewrites mis out
    → Rewrites (mi ∷ mis) (in_place t mi s ++ out)
Outcome-Rewrites t (kept le) r = keep r
Outcome-Rewrites t (replaced {mi = m} {mis = ms} le plain) r = rw append-nil (replace ms plain r)

Outcome-le : {v : ℕ} {s : Split} → Outcome v s → v ≤ s.next_vreg
Outcome-le (kept le) = le
Outcome-le (replaced le plain) = le

abbrev Rewritten : List MachineInstr → ℕ → List MachineInstr × ℕ → Type 0
Rewritten mis v r = Rewrites mis r.0 × (v ≤ r.1)

abbrev AllRewritten : List (List MachineInstr) → ℕ → List (List MachineInstr) × ℕ → Type 0
AllRewritten mbbs v r = RewritesAll mbbs r.0 × (v ≤ r.1)

module _ (t : Target) where
  split_block-Rewritten :
      (v : ℕ) (mis : List MachineInstr) → Ensures (Rewritten mis v) (split_block t v mis)
  unfolding split_block
  split_block-Rewritten v [] = done (empty, omega arith)
  split_block-Rewritten v (mi ∷ mis) = Ensures-bind _ _ λ s h.
      let o = split_instr-Outcome t v mi s h in
      Ensures-bind _ _ λ r e.
        let (rest, le) = Ensures-some (split_block-Rewritten s.next_vreg mis) e in
        done (Outcome-Rewrites t o rest, omega (arith, Outcome-le o))

  split_machine_function-AllRewritten :
      (v : ℕ) (mbbs : List (List MachineInstr))
      → Ensures (AllRewritten mbbs v) (split_machine_function t v mbbs)
  unfolding split_machine_function
  split_machine_function-AllRewritten v [] = done (no_blocks, omega arith)
  split_machine_function-AllRewritten v (mbb ∷ mbbs) = Ensures-bind _ _ λ b h.
      let (here, le) = Ensures-some (split_block-Rewritten v mbb) h in
      Ensures-bind _ _ λ r e.
        let (rest, le') = Ensures-some (split_machine_function-AllRewritten b.1 mbbs) e in
        done (block here rest, omega arith)

-- The pass over a function, if no assertion fails, keeps the blocks and the order of their
-- instructions. Each instruction is kept, or at least one instruction with no shifted operand and
-- no write-back stands in its place. The counter of virtual registers never falls.
pub split_rewrites :
    (t : Target) (v : ℕ) (mbbs out : List (List MachineInstr)) (v' : ℕ)
    → split_machine_function t v mbbs ≡ some (out, v')
    → RewritesAll mbbs out × (v ≤ v')
split_rewrites t v mbbs out v' h = Ensures-some (split_machine_function-AllRewritten t v mbbs) h
