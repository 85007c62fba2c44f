-- ===== src/X86/ArgTypes/Built.antt =====
-- The types of the arguments that buildFuncArgTypeVector makes of a set of live-in registers.
use llvm_mctoll.Base.{ℕ, suc, ◌+◌, ◌<◌, ◌≡◌, true, false, some, List, length, get_elem?}
use llvm_mctoll.X86.Instr.{mem}
use llvm_mctoll.X86.Types.{IrType, X86Target, int_type, double_type}
use llvm_mctoll.X86.ArgTypes.{ArgMaps, gp_arg_type, fill_args}
use llvm_mctoll.X86.ArgTypes.Found.{Numbered, Holds}

-- Of the arguments the first `gps` are those of the general purpose registers, in the order of their
-- numbers; the others are those of the SSE registers.
pub record Matches (t : X86Target) (set : List ℕ) (tys : List IrType) (gps : ℕ) : Type 0 where
  pub gp_type :
      (r i : ℕ)
      → mem r set ≡ true
      → Numbered t r true (suc i)
      → (i < gps) × (get_elem? tys i ≡ some (gp_arg_type t r))
  pub sse_type :
      (r i : ℕ)
      → mem r set ≡ true
      → Numbered t r false (suc i)
      → get_elem? tys (gps + i) ≡ some double_type
  pub gap_type :
      (i : ℕ)
      → i < gps
      → ((r : ℕ) → mem r set ≡ true → Numbered t r true (suc i) → ⊥)
      → get_elem? tys i ≡ some (int_type 64)
  pub rest_type : (i : ℕ) → gps + i < length tys → get_elem? tys (gps + i) ≡ some double_type

module _ (t : X86Target) (set : List ℕ) (s : ArgMaps) (h : Holds t (λ r. mem r set ≡ true) s) where
  gp_part : List IrType
  gp_part = fill_args s.max_gp_arg_num 1 s.arg_num_type_map (int_type 64)

  sse_part : List IrType
  sse_part = fill_args s.max_sse_arg_num 1 s.sse_arg_num_type_map double_type
