-- ===== src/Filter/Lists.antt =====
-- FunctionFilter: its two vectors and their operations, behind the parsing of a prototype. A name is
-- a number, equal for equal strings; LLVM's types and functions are parameters.
use llvm_mctoll.Base.{
  ℕ, ◌==◌, if◌then◌else◌, Bool, true, false, Option, none, some, List, [], ◌∷◌, ◌++◌,
}

pub record FuncInfo (FunctionType Function : Type 0) : Type 0 where
  pub start_idx : ℕ
  pub sym_name : ℕ
  pub func_type : FunctionType
  pub func : Option Function

pub record FunctionFilter (FunctionType Function : Type 0) : Type 0 where
  pub excluded : List (FuncInfo FunctionType Function)
  pub included : List (FuncInfo FunctionType Function)

abbrev pub is_found : {A : Type 0} → Option A → Bool
is_found none = false
is_found (some f) = true

module _ {FunctionType Function : Type 0} where
  unfoldable pub find_func_info_by_symbol :
      ℕ → List (FuncInfo FunctionType Function) → Option (FuncInfo FunctionType Function)
  find_func_info_by_symbol sym [] = none
  find_func_info_by_symbol sym (f ∷ fs) =
      let rest = find_func_info_by_symbol sym fs in if f.sym_name == sym then some f else rest

  unfoldable pub find_function_by_index :
      ℕ → List (FuncInfo FunctionType Function) → Option Function
  find_function_by_index start [] = none
  find_function_by_index start (f ∷ fs) =
      let rest = find_function_by_index start fs in if f.start_idx == start then f.func else rest

  -- The first entry of the name goes.
  unfoldable pub erase_function_by_symbol :
      ℕ → List (FuncInfo FunctionType Function) → List (FuncInfo FunctionType Function)
  erase_function_by_symbol sym [] = []
  erase_function_by_symbol sym (f ∷ fs) =
      let rest = erase_function_by_symbol sym fs in if f.sym_name == sym then fs else f ∷ rest

  -- The parsed prototype and the function that getOrCreateFunctionByPrototype gives for it.
  unfoldable pub add_excluded_function :
      FunctionFilter FunctionType Function
      → ℕ
      → FunctionType
      → Function
      → FunctionFilter FunctionType Function
  add_excluded_function filter sym type function = record {
    excluded =
        filter.excluded
        ++ record { start_idx = 0; sym_name = sym; func_type = type; func = some function } ∷ [];
    included =
        if is_found (find_func_info_by_symbol sym filter.included)
        then erase_function_by_symbol sym filter.included
        else filter.included;
  }

  unfoldable pub add_included_function :
      FunctionFilter FunctionType Function → ℕ → FunctionType → FunctionFilter FunctionType Function
  add_included_function filter sym type =
      if is_found (find_func_info_by_symbol sym filter.excluded) then filter else record filter {
        included =
            filter.included
            ++ record { start_idx = 0; sym_name = sym; func_type = type; func = none } ∷ [];
      }
