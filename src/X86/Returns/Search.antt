-- ===== src/X86/Returns/Search.antt =====
-- getReachingReturnType and getFunctionReturnType of X86/X86FuncPrototypeDiscovery.cpp. The blocks
-- are numbered in the order of the function, so the entry block has number 0. The work list is the
-- queue that it is used as: its head is what pop_back_val takes.
use llvm_mctoll.Base.{
  ℕ, zero, suc, ◌+◌, ◌==◌, if◌then◌else◌, Bool, true, false, Option, none, some, List, [], ◌∷◌,
  ◌++◌, length, get_elem?, map, ◌>>=◌,
}
use llvm_mctoll.X86.Instr.{MachineInstr, MachineBasicBlock}
use llvm_mctoll.X86.InstrInfo.{X86AdditionalInstrInfo}
use llvm_mctoll.X86.Types.{IrType, void_type, X86Target}
use llvm_mctoll.X86.Reaching.{set_flag, no_flags, unvisited, edges_left}
use llvm_mctoll.X86.Returns.{Walked, walked, get_return_type_from_mbb}

-- What a search comes to; `failed` is a failed assertion or an access out of range.
pub data Outcome : Type 0 where
  ended : Option IrType → Outcome
  failed out_of_fuel : Outcome

-- A round ends the loop with a type, or goes on with the flags and the work list.
pub data Round : Type 0 where
  stop : Option IrType → Round
  failed_round : Round
  go : List Bool → List ℕ → Round

abbrev pub preds_of : MachineBasicBlock → List ℕ
preds_of mbb = mbb.predecessors

module _ (pss : List (List ℕ)) (probe : ℕ → Option Walked) where
  -- The block has no call and no definition.
  abbrev pub go_up : List Bool → ℕ → List ℕ → Option (List ℕ) → Round
  go_up visited b rest none = failed_round
  go_up visited b rest (some ps) =
      if b == 0 then stop none else go visited (rest ++ unvisited visited ps)

  abbrev pub after_probe : List Bool → ℕ → List ℕ → Option Walked → Round
  after_probe visited b rest none = failed_round
  after_probe visited b rest (some (walked (some ty) c)) = stop (some ty)
  after_probe visited b rest (some (walked none true)) = go visited rest
  after_probe visited b rest (some (walked none false)) = go_up visited b rest (get_elem? pss b)

  abbrev pub by_flag : List Bool → ℕ → List ℕ → Option Bool → Round
  by_flag visited b rest none = failed_round
  by_flag visited b rest (some true) = go visited rest
  by_flag visited b rest (some false) = after_probe (set_flag visited b) b rest (probe b)

  -- The body of the loop.
  unfoldable pub round : List Bool → ℕ → List ℕ → Round
  round visited b rest = by_flag visited b rest (get_elem? visited b)

  abbrev pub on_round : Round → (List Bool → List ℕ → Outcome) → Outcome
  on_round (stop ty) next = ended ty
  on_round failed_round next = failed
  on_round (go visited work_list) next = next visited work_list

  unfoldable pub search : ℕ → List Bool → List ℕ → Outcome
  search fuel visited [] = ended none
  search zero visited (b ∷ rest) = out_of_fuel
  search (suc fuel) visited (b ∷ rest) =
      on_round (round visited b rest) (λ visited' work_list. search fuel visited' work_list)

  abbrev pub search_preds : Option (List ℕ) → Outcome
  search_preds none = failed
  search_preds (some ps) = search (edges_left (no_flags pss) pss + length ps) (no_flags pss) ps

  abbrev pub from_block : ℕ → Option Walked → Outcome
  from_block mbb none = failed
  from_block mbb (some (walked ty true)) = ended ty
  from_block mbb (some (walked (some ty) false)) = ended (some ty)
  from_block mbb (some (walked none false)) = search_preds (get_elem? pss mbb)

  unfoldable pub get_reaching_return_type : ℕ → Outcome
  get_reaching_return_type mbb = from_block mbb (probe mbb)

-- The first return block.
unfoldable pub first_return_block : ℕ → List MachineBasicBlock → Option ℕ
first_return_block n [] = none
first_return_block n (mbb ∷ mbbs) =
    let rest = first_return_block (suc n) mbbs in if mbb.is_return_block then some n else rest

abbrev pub or_void : Outcome → Outcome
or_void (ended none) = ended (some void_type)
or_void (ended (some ty)) = ended (some ty)
or_void failed = failed
or_void out_of_fuel = out_of_fuel

module _ (t : X86Target) (table : List (ℕ × X86AdditionalInstrInfo))
    (callee_return : MachineInstr → Option (Option IrType)) (mbbs : List MachineBasicBlock) where
  abbrev pub probe_block : ℕ → Option Walked
  probe_block n = do
    mbb ← get_elem? mbbs n
    get_return_type_from_mbb t table callee_return mbb.instrs

  abbrev pub from_return_block : Option ℕ → Outcome
  from_return_block none = ended none
  from_return_block (some n) = get_reaching_return_type (map preds_of mbbs) probe_block n

  unfoldable pub get_function_return_type : Outcome
  get_function_return_type = or_void (from_return_block (first_return_block 0 mbbs))
