-- ===== src/Tests/ArmFrame.antt =====
-- The frame builder at concrete instructions.
use llvm_mctoll.Base.{
  ℕ, ◌≡◌, refl, if◌then◌else◌, true, false, List, [], ◌∷◌, ◌++◌, map, none, some, ◌>>=◌,
}
use llvm_mctoll.Base.Int.{ℤ, pos, negsuc, ◌+ℤ◌}
use llvm_mctoll.Arm.Opcode.{Opcode, mov_r, ldr_i12, str_i12, sub_ri}
use llvm_mctoll.Arm.Target.{
  Register, sp, r11, phys, no_register, reg, imm, frame_index, MachineInstr,
}
use llvm_mctoll.Arm.Frame.Identify.{
  FrameInfo, is_store_op, identify_stack_op, base_offset, frame_offset,
}
use llvm_mctoll.Arm.Frame.Build.{
  Layout, Marked, Search, object_of, create_objects, moved_register, mark, visit, visit_block,
  visit_blocks, place_block, place_blocks, search_stack_objects,
}
use llvm_mctoll.Arm.Frame.Slots.{RewrittenBlocks, search_stack_objects-RewrittenBlocks}
use llvm_mctoll.Arm.Frame.Elements.{Descending}
use llvm_mctoll.Arm.Frame.Built.{search_stack_objects-some, search_stack_objects-Descending}

-- A frame of 16 bytes whose frame pointer lies 8 bytes above it.
abbrev pub small_frame : FrameInfo
small_frame = record { stack_size = pos 16; offset_adjustment = pos 8; objects = [] }

abbrev access : Opcode → Register → Register → ℤ → MachineInstr
access opc dest base off = record {
  opcode = opc;
  operands = reg dest true ∷ reg base false ∷ imm off ∷ imm (pos 14) ∷ reg no_register false ∷ [];
}

-- mov r5, sp; str r0, [r5, #4]; ldr r1, [r11, #-8]; sub r2, r2, #1
abbrev body : List MachineInstr
body =
    record { opcode = mov_r; operands = reg (phys 5) true ∷ reg sp false ∷ [] }
    ∷ record {
      opcode = str_i12;
      operands = reg (phys 0) false ∷ reg (phys 5) false ∷ imm (pos 4) ∷ [];
    }
    ∷ access ldr_i12 (phys 1) r11 (negsuc 7)
    ∷ access sub_ri (phys 2) (phys 2) (pos 1)
    ∷ []

-- str r0, slot 1; ldr r1, slot 0; sub r2, r2, #1
abbrev rewritten : List MachineInstr
rewritten =
    record { opcode = str_i12; operands = reg (phys 0) false ∷ frame_index (pos 1) ∷ [] }
    ∷ record {
      opcode = ldr_i12;
      operands =
          reg (phys 1) true ∷ frame_index (pos 0) ∷ imm (pos 14) ∷ reg no_register false ∷ [];
    }
    ∷ access sub_ri (phys 2) (phys 2) (pos 1)
    ∷ []

abbrev defs_of : MachineInstr → ℕ
defs_of mi = if is_store_op mi.opcode then 0 else 1

abbrev layout : Layout
layout = record { num_explicit_defs = defs_of; log_stack_align = 3 }

abbrev new_elements : List (ℤ × ℕ)
new_elements = (pos 16, 4) ∷ (pos 4, 4) ∷ []

abbrev new_frame : FrameInfo
new_frame = record small_frame { objects = create_objects [] new_elements }

search_run : search_stack_objects layout small_frame (body ∷ []) ≡ some (rewritten ∷ [], new_frame)
unfolding search_stack_objects visit_blocks visit_block visit mark place_blocks place_block
    moved_register identify_stack_op base_offset frame_offset ◌>>=◌ ◌+ℤ◌
search_run = refl

search_stack_objects-RewrittenBlocks_example :
    RewrittenBlocks layout small_frame new_frame [] (body ∷ []) (rewritten ∷ [])
search_stack_objects-RewrittenBlocks_example =
    search_stack_objects-RewrittenBlocks layout small_frame new_frame (body ∷ []) (rewritten ∷ [])
      search_run

search_stack_objects-Descending_example :
    (es : List (ℤ × ℕ)) × (new_frame.objects ≡ small_frame.objects ++ map object_of es)
    × Descending es
search_stack_objects-Descending_example =
    search_stack_objects-Descending layout small_frame (body ∷ []) (rewritten ∷ []) new_frame
      search_run

-- What the walk over the instructions leaves.
abbrev walked : Search
walked = record { assigned = phys 5 ∷ []; elements = new_elements }

abbrev marks : List Marked
marks =
    record {
      instr = record {
        opcode = str_i12;
        operands = reg (phys 0) false ∷ reg sp false ∷ imm (pos 4) ∷ [];
      };
      slot = some (pos 4);
    }
    ∷ record { instr = access ldr_i12 (phys 1) r11 (negsuc 7); slot = some (pos 16) }
    ∷ record { instr = access sub_ri (phys 2) (phys 2) (pos 1); slot = none }
    ∷ []

search_stack_objects-some_example :
    (mf' : List (List MachineInstr)) × (search_stack_objects layout small_frame (body ∷ [])
      ≡ some (mf', new_frame))
unfolding visit_blocks visit_block visit mark moved_register identify_stack_op base_offset
    frame_offset ◌>>=◌ ◌+ℤ◌
search_stack_objects-some_example =
    search_stack_objects-some layout small_frame (body ∷ []) walked (marks ∷ []) refl
