-- ===== src/Tests/FilterTypes.antt =====
-- The types of a prototype and the lines of a configuration at concrete strings.
use llvm_mctoll.Base.{ℕ, ◌≡◌, refl, false, none, some, ◌>>=◌, List, [], ◌∷◌, if◌then◌else◌, ◌==◌}
use llvm_mctoll.Filter.Lists.{
  FunctionFilter, add_excluded_function, add_included_function, find_func_info_by_symbol,
  erase_function_by_symbol,
}
use llvm_mctoll.Filter.Types.{PrimitiveType, DataType, get_base_type, get_primitive_data_type}
use llvm_mctoll.Filter.Config.{
  ConfigCalls, FilterType, parse_parameters, read_line, read_lines, same_bytes,
}

-- "i16"
abbrev i16 : List ℕ
i16 = 105 ∷ 49 ∷ 54 ∷ []

abbrev int1 : DataType
int1 = DataType.plain_type PrimitiveType.int1_type

-- "void" and "i16" as the parameters
one_parameter :
    parse_parameters
      ((118 ∷ 111 ∷ 105 ∷ 100 ∷ [], 118 ∷ 111 ∷ 105 ∷ 100 ∷ []) ∷ (i16, i16) ∷ [])
      []
      false
    ≡ some (int1 ∷ [], false)
unfolding parse_parameters get_primitive_data_type get_base_type ◌>>=◌
one_parameter = refl

-- A line is the start of a block, 1 or 2, or an entry 3 of this binary, 7, with a name.
abbrev calls : ConfigCalls ℕ ℕ
calls = record {
  trim = λ l. l;
  match_entry = λ l. elim l [ [] ↦ none | n ∷ ns ↦ if n == 3 then some (7 ∷ [], ns) else none ];
  match_end = λ l. same_bytes l (4 ∷ []);
  match_exclude = λ l. same_bytes l (1 ∷ []);
  match_include = λ l. same_bytes l (2 ∷ []);
  source_file_name = 7 ∷ [];
  parse_prototype_str = λ l. elim l [ [] ↦ none | n ∷ ns ↦ some (n, 0) ];
  get_or_create_function = λ sym type. sym;
}

abbrev empty_filter : FunctionFilter ℕ ℕ
empty_filter = record { excluded = []; included = [] }

-- A name in both blocks is excluded.
read_both :
    read_lines calls FilterType.filter_none empty_filter
      ((2 ∷ []) ∷ (3 ∷ 50 ∷ []) ∷ (4 ∷ []) ∷ (59 ∷ []) ∷ (1 ∷ []) ∷ (3 ∷ 50 ∷ []) ∷ (4 ∷ []) ∷ [])
    ≡ some (record {
      excluded = record { start_idx = 0; sym_name = 50; func_type = 0; func = some 50 } ∷ [];
      included = [];
    })
unfolding read_lines read_line add_excluded_function add_included_function find_func_info_by_symbol
    erase_function_by_symbol ◌>>=◌
read_both = refl
