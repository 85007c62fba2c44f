-- ===== src/Filter/Config.antt =====
-- FunctionFilter: the parameters of a prototype (parsePrototypeStr) and the lines of the configuration
-- file (readFilterFunctionConfigFile). LLVM's regular expressions, trim and split are given by what
-- they return; a line is a list of bytes. `none` is a failed assertion.
use llvm_mctoll.Base.{
  ℕ, ◌==◌, ◌&&◌, if◌then◌else◌, Bool, true, false, Option, none, some, ◌>>=◌, List, [], ◌∷◌, ◌++◌,
}
use llvm_mctoll.Filter.Lists.{FunctionFilter, add_excluded_function, add_included_function}
use llvm_mctoll.Filter.Types.{DataType, starts_with, get_primitive_data_type}

abbrev pub same_bytes : List ℕ → List ℕ → Bool
same_bytes [] [] = true
same_bytes (a ∷ s) (b ∷ t) = (a == b) && same_bytes s t
same_bytes _ _ = false

-- The body of the loop over the parameters, for a parameter and its lower case: the types and IsVari.
abbrev pub parse_parameter : List ℕ → List ℕ → List DataType → Bool → Option (List DataType × Bool)
parse_parameter para lower types is_vari =
    if same_bytes lower (118 ∷ 111 ∷ 105 ∷ 100 ∷ [])
    then some (types, is_vari)
    else if same_bytes para (46 ∷ 46 ∷ 46 ∷ [])
    then some (types, true)
    else (do t ← get_primitive_data_type para; some (types ++ t ∷ [], is_vari))

unfoldable pub parse_parameters :
    List (List ℕ × List ℕ) → List DataType → Bool → Option (List DataType × Bool)
parse_parameters [] types is_vari = some (types, is_vari)
parse_parameters ((para, lower) ∷ paras) types is_vari = do
  (types', is_vari') ← parse_parameter para lower types is_vari
  parse_parameters paras types' is_vari'

pub data FilterType : Type 0 where
  filter_none filter_exclude filter_include : FilterType

-- What the configuration needs: the two groups of "(.+):(.+)", the matches of the three other
-- expressions, the name of the module's file, the parsing of a prototype and the function for it.
pub record ConfigCalls (FunctionType Function : Type 0) : Type 0 where
  pub trim : List ℕ → List ℕ
  pub match_entry : List ℕ → Option (List ℕ × List ℕ)
  pub match_end : List ℕ → Bool
  pub match_exclude : List ℕ → Bool
  pub match_include : List ℕ → Bool
  pub source_file_name : List ℕ
  pub parse_prototype_str : List ℕ → Option (ℕ × FunctionType)
  pub get_or_create_function : ℕ → FunctionType → Function

module _ {FunctionType Function : Type 0} (calls : ConfigCalls FunctionType Function) where
  abbrev Filter : Type 0
  Filter = FunctionFilter FunctionType Function

  -- An entry for this binary, by the block that it stands in.
  abbrev pub add_entry_for : FilterType → Filter → List ℕ → Option Filter
  add_entry_for filter_none filter proto = none
  add_entry_for filter_exclude filter proto = do
    (sym, type) ← calls.parse_prototype_str proto
    some (add_excluded_function filter sym type (calls.get_or_create_function sym type))
  add_entry_for filter_include filter proto = do
    (sym, type) ← calls.parse_prototype_str proto
    some (add_included_function filter sym type)

  -- The end of the loop's body: the start of a block.
  abbrev pub read_header : FilterType → Filter → List ℕ → FilterType × Filter
  read_header ff filter line =
      if calls.match_exclude line
      then (filter_exclude, filter)
      else if calls.match_include line
      then (filter_include, filter)
      else (ff, filter)

  abbrev pub read_end : FilterType → Filter → List ℕ → FilterType × Filter
  read_end ff filter line =
      if calls.match_end line then (filter_none, filter) else read_header ff filter line

  abbrev pub read_in_block :
      FilterType → Filter → List ℕ → Option (List ℕ × List ℕ) → Option (FilterType × Filter)
  read_in_block ff filter line none = some (read_end ff filter line)
  read_in_block ff filter line (some (binary, proto)) =
      if same_bytes binary calls.source_file_name
      then (do filter' ← add_entry_for ff filter proto; some (ff, filter'))
      else some (read_end ff filter line)

  abbrev pub read_trimmed : FilterType → Filter → List ℕ → Option (FilterType × Filter)
  read_trimmed filter_none filter line = some (read_header filter_none filter line)
  read_trimmed filter_exclude filter line =
      read_in_block filter_exclude filter line (calls.match_entry line)
  read_trimmed filter_include filter line =
      read_in_block filter_include filter line (calls.match_entry line)

  -- The loop's body.
  unfoldable pub read_line : FilterType → Filter → List ℕ → Option (FilterType × Filter)
  read_line ff filter raw =
      if starts_with (59 ∷ []) (calls.trim raw)
      then some (ff, filter)
      else read_trimmed ff filter (calls.trim raw)

  -- The loop, on lines that fit the buffer.
  unfoldable pub read_lines : FilterType → Filter → List (List ℕ) → Option Filter
  read_lines ff filter [] = some filter
  read_lines ff filter (raw ∷ lines) = do
    (ff', filter') ← read_line ff filter raw
    read_lines ff' filter' lines
