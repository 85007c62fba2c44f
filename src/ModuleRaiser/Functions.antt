-- ===== src/ModuleRaiser/Functions.antt =====
-- The functions of a module: getRaisedFunctionAt, getCalledFunctionUsingTextReloc, getMachineFunction
-- and insertPlaceholderRaisedFunctionMap of Raiser/ModuleRaiser.{h,cpp}. A pointer is a number.
use llvm_mctoll.Base.{
  ℕ, ◌==◌, if◌then◌else◌, Bool, true, false, Option, none, some, List, [], ◌∷◌, ◌>>=◌,
}
use llvm_mctoll.Base.Word.{add64}
use llvm_mctoll.ModuleRaiser.Relocs.{
  Relocation, Section, TextInfo, get_text_reloc_at_offset, get_text_section_address,
}

-- An LLVM function, and a MachineFunctionRaiser: where its function starts, and the raised function,
-- `none` for nullptr.
pub record RaisedFunction : Type 0 where
  pub pointer : ℕ
  pub name : ℕ

pub record FunctionRaiser : Type 0 where
  pub func_start : ℕ
  pub raised_function : Option RaisedFunction

-- The loop of getRaisedFunctionAt.
unfoldable pub raised_at : ℕ → List FunctionRaiser → ℕ → Option RaisedFunction
raised_at address [] index = none
raised_at address (m ∷ ms) index =
    let rest = raised_at address ms index in
    if add64 m.func_start address == index then m.raised_function else rest

unfoldable pub get_raised_function_at :
    Bool → List Section → TextInfo → List FunctionRaiser → ℕ → Option (Option RaisedFunction)
get_raised_function_at is_elf sections info raisers index = do
  address ← get_text_section_address is_elf sections info
  some (raised_at address raisers index)

-- The loop of getCalledFunctionUsingTextReloc; `none` is a failed assertion.
unfoldable pub function_named : ℕ → List FunctionRaiser → Option (Option RaisedFunction)
function_named symbol [] = some none
function_named symbol (m ∷ ms) =
    let rest = function_named symbol ms in
    (do f ← m.raised_function; if symbol == f.name then some (some f) else rest)

abbrev pub called_function :
    List FunctionRaiser → Option Relocation → Option (Option RaisedFunction)
called_function raisers none = some none
called_function raisers (some r) = do symbol ← r.symbol_name; function_named symbol raisers

unfoldable pub get_called_function_using_text_reloc :
    List Relocation → List FunctionRaiser → ℕ → ℕ → Option (Option RaisedFunction)
get_called_function_using_text_reloc relocs raisers loc size =
    called_function raisers (get_text_reloc_at_offset relocs loc (add64 loc size))

-- PlaceholderRaisedFunctionMap: insert leaves a key that is there, and says whether it was not.
unfoldable pub find_placeholder : List (ℕ × ℕ) → ℕ → Option ℕ
find_placeholder [] r = none
find_placeholder ((k, v) ∷ m) r = let rest = find_placeholder m r in if k == r then some v else rest

abbrev is_absent : Option ℕ → Bool
is_absent none = true
is_absent (some v) = false

unfoldable pub insert_placeholder_raised_function_map : List (ℕ × ℕ) → ℕ → ℕ → List (ℕ × ℕ) × Bool
insert_placeholder_raised_function_map m r ph =
    if is_absent (find_placeholder m r) then ((r, ph) ∷ m, true) else (m, false)

-- getMachineFunction; the map from placeholders to machine functions is LLVM's MachineModuleInfo.
unfoldable pub get_machine_function : (ℕ → Option ℕ) → List (ℕ × ℕ) → ℕ → Option (Option ℕ)
get_machine_function machine_function m r = do ph ← find_placeholder m r; some (machine_function ph)
