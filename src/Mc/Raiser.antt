-- ===== src/Mc/Raiser.antt =====
-- MCInstRaiser: its maps and its methods but for the construction of the graph. A `std::map` is a
-- list of pairs in the order of the keys; a `std::set` a list.
use llvm_mctoll.Base.{
  ℕ, ◌-◌, ltb, leb, ◌==◌, if◌then◌else◌, Bool, true, false, ◌&&◌, ◌||◌, not, Option, none, some,
  List, [], ◌∷◌,
}
use llvm_mctoll.Mc.Cell.{McInstOrData, is_data}

-- std::map::insert, which keeps an entry that is there.
abbrev pub map_insert : {A : Type 0} → ℕ → A → List (ℕ × A) → List (ℕ × A)
map_insert k v [] = (k, v) ∷ []
map_insert k v ((j, w) ∷ m) =
    let rest = map_insert k v m in
    if k == j then (j, w) ∷ m else if ltb k j then (k, v) ∷ (j, w) ∷ m else (j, w) ∷ rest

abbrev pub map_find : {A : Type 0} → ℕ → List (ℕ × A) → Option A
map_find k [] = none
map_find k ((j, w) ∷ m) = let rest = map_find k m in if k == j then some w else rest

abbrev pub set_holds : ℕ → List ℕ → Bool
set_holds k [] = false
set_holds k (j ∷ s) = k == j || set_holds k s

abbrev pub set_insert : ℕ → List ℕ → List ℕ
set_insert k s = if set_holds k s then s else k ∷ s

pub record McInstRaiser (Inst : Type 0) : Type 0 where
  pub inst_map : List (ℕ × McInstOrData Inst)
  pub target_indices : List ℕ
  pub func_start : ℕ
  pub func_end : ℕ
  pub data_in_code : Bool

module _ {Inst : Type 0} where
  -- MCInstRaiser(Start, End)
  abbrev pub make_raiser : ℕ → ℕ → McInstRaiser Inst
  make_raiser start end = record {
    inst_map = [];
    target_indices = [];
    func_start = start;
    func_end = end;
    data_in_code = false;
  }

  abbrev pub is_mc_inst_in_range : McInstRaiser Inst → ℕ → Bool
  is_mc_inst_in_range r index = leb r.func_start index && leb index r.func_end

  unfoldable pub add_target : McInstRaiser Inst → ℕ → McInstRaiser Inst
  add_target r target =
      if not (leb r.func_start target && leb target r.func_end)
      then r
      else record r { target_indices = set_insert target r.target_indices }

  unfoldable pub adjust_func_end : McInstRaiser Inst → ℕ → Bool × McInstRaiser Inst
  adjust_func_end r n = if ltb n r.func_end then (false, r) else (true, record r { func_end = n })

  unfoldable pub add_mc_inst_or_data : McInstRaiser Inst → ℕ → McInstOrData Inst → McInstRaiser Inst
  add_mc_inst_or_data r index e = record r {
    data_in_code = if is_data e && not r.data_in_code then true else r.data_in_code;
    inst_map = map_insert index e r.inst_map;
  }

  -- The offset of the entry behind the one at an offset, the end of the function behind the last
  -- one; `none` where an assertion fails.
  abbrev pub size_in : ℕ → ℕ → List (ℕ × McInstOrData Inst) → Option ℕ
  size_in end offset [] = none
  size_in end offset ((j, e) ∷ []) =
      if offset == j then (if ltb offset end then some (end - offset) else none) else none
  size_in end offset ((j, e) ∷ (k, d) ∷ m) =
      let rest = size_in end offset ((k, d) ∷ m) in if offset == j then some (k - offset) else rest

  unfoldable pub get_mc_inst_size : McInstRaiser Inst → ℕ → Option ℕ
  get_mc_inst_size r offset = size_in r.func_end offset r.inst_map

-- std::find_if on the block numbers: the offset of a block.
abbrev pub find_number : ℕ → List (ℕ × ℕ) → Option ℕ
find_number mbb [] = none
find_number mbb ((offset, n) ∷ m) =
    let rest = find_number mbb m in if n == mbb then some offset else rest
