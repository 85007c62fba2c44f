-- ===== src/Tests/McCfg.antt =====
-- The control-flow graph of a short function. An instruction is a number: 0 falls through, n + 1 is
-- a conditional branch to n.
use llvm_mctoll.Base.{
  ℕ, zero, suc, ◌==◌, if◌then◌else◌, true, false, ◌≡◌, refl, Option, none, some, ◌>>=◌, List, [],
  ◌∷◌, All, arith,
}
use llvm_mctoll.Mc.Cell.{McInstOrData, of_inst}
use llvm_mctoll.Mc.Raiser.{McInstRaiser, make_raiser, add_mc_inst_or_data, get_mc_inst_size}
use llvm_mctoll.Mc.Cfg.{
  Analysis, Cfg, build_blocks, add_entries, add_entry, add_inst, targets_of, term_targets,
  build_cfg,
}
use llvm_mctoll.Mc.Blocks.{IsBlock, flat}
use llvm_mctoll.Mc.Defined.{inst_cell, build_cfg_defined}
use llvm_mctoll.Mc.Sizes.{get_mc_inst_size-add_all, add_all}

abbrev target_of : ℕ → Option ℕ
target_of zero = none
target_of (suc n) = some n

abbrev toy : Analysis ℕ
toy = record {
  is_branch = λ i. if i == 0 then false else true;
  is_conditional_branch = λ i. if i == 0 then false else true;
  evaluate_branch = λ i address size. target_of i;
  is_return = λ i. false;
}

-- 100: nothing; 104: nothing; 108: back to 104 or on; 112: nothing; 116: data or nothing
abbrev entries : McInstOrData ℕ → List (ℕ × McInstOrData ℕ)
entries last =
    (100, of_inst 0) ∷ (104, of_inst 0) ∷ (108, of_inst 105) ∷ (112, of_inst 0) ∷ (116, last) ∷ []

abbrev function : McInstOrData ℕ → McInstRaiser ℕ
function last = record {
  inst_map = entries last;
  target_indices = 100 ∷ 104 ∷ 112 ∷ [];
  func_start = 100;
  func_end = 120;
  data_in_code = false;
}

abbrev cfg : Cfg ℕ
cfg = record {
  blocks = ((116, 0) ∷ (112, 0) ∷ []) ∷ ((108, 105) ∷ (104, 0) ∷ []) ∷ ((100, 0) ∷ []) ∷ [];
  entry = 112;
  targets = (0, 104 ∷ []) ∷ (1, 104 ∷ 112 ∷ []) ∷ (2, []) ∷ [];
  numbers = (100, 0) ∷ (104, 1) ∷ (112, 2) ∷ [];
}

-- Block 0 goes to 1, block 1 to itself and to 2.
build_cfg_run : build_cfg toy (function (of_inst 0)) ≡ some (cfg, [] ∷ (1 ∷ 2 ∷ []) ∷ (1 ∷ []) ∷ [])
unfolding build_cfg build_blocks add_entries add_entry add_inst targets_of term_targets ◌>>=◌
build_cfg_run = refl

build_cfg_defined_example :
    (c : Cfg ℕ) × (edges : List (List ℕ)) × (build_cfg toy (function (of_inst 0)) ≡ some (c, edges))
    × All (IsBlock (100 ∷ 104 ∷ 112 ∷ [])) c.blocks
    × (flat c.blocks ≡ (116, 0) ∷ (112, 0) ∷ (108, 105) ∷ (104, 0) ∷ (100, 0) ∷ [])
unfolding term_targets ◌>>=◌
build_cfg_defined_example =
    build_cfg_defined toy (function (of_inst 0)) 100 0
      ((104, of_inst 0) ∷ (108, of_inst 105) ∷ (112, of_inst 0) ∷ (116, of_inst 0) ∷ []) refl refl
      (inst_cell 0, (inst_cell 105, (inst_cell 0, (inst_cell 0, tt)))) [] refl

-- added out of order
get_mc_inst_size-add_all_example :
    get_mc_inst_size {Inst = ℕ}
      (add_all ((108, of_inst 0) ∷ (100, of_inst 0) ∷ (104, of_inst 0) ∷ []) (make_raiser 100 116))
      104
    ≡ some 4
unfolding add_mc_inst_or_data
get_mc_inst_size-add_all_example =
    get_mc_inst_size-add_all ((108, of_inst 0) ∷ (100, of_inst 0) ∷ (104, of_inst 0) ∷ []) 100 116
      104 (of_inst 0) ((100, of_inst 0) ∷ []) ((108, of_inst 0) ∷ []) refl (omega arith)
