-- ===== src/ModuleRaiser/Relocs.antt =====
-- The relocations of Raiser/ModuleRaiser.cpp: collectTextSectionRelocs and the searches. Offsets
-- are 64-bit words. std::sort is a sort by insertion; which order it gives to relocations with one
-- offset, C++ leaves open.
use llvm_mctoll.Base.{
  ℕ, ◌==◌, ltb, leb, if◌then◌else◌, Bool, true, false, ◌&&◌, Option, none, some, List, [], ◌∷◌,
  ◌++◌, assert, ◌>>=◌, ◌>>◌,
}
use llvm_mctoll.Base.Word.{add64}

-- A RelocationRef, with the name of its symbol; `none` is an error from getName.
pub record Relocation : Type 0 where
  pub offset : ℕ
  pub symbol_name : Option ℕ

-- Expected<section_iterator>: getRelocatedSection.
pub data RelocatedSection : Type 0 where
  read_error : RelocatedSection
  section_end : RelocatedSection
  section_at : ℕ → RelocatedSection

pub record Section : Type 0 where
  pub index : ℕ
  pub address : ℕ
  pub relocated_section : RelocatedSection
  pub relocations : List Relocation

-- TextSectionIndex, `none` for -1, and the vector of text relocations.
pub record TextInfo : Type 0 where
  pub text_section_index : Option ℕ
  pub text_relocs : List Relocation

unfoldable pub insert_by_offset : Relocation → List Relocation → List Relocation
insert_by_offset r [] = r ∷ []
insert_by_offset r (q ∷ qs) =
    let rest = insert_by_offset r qs in if leb r.offset q.offset then r ∷ q ∷ qs else q ∷ rest

unfoldable pub sort_by_offset : List Relocation → List Relocation
sort_by_offset [] = []
sort_by_offset (r ∷ rs) = insert_by_offset r (sort_by_offset rs)

-- The body of the loop over the candidate sections, before what the rest of the loop gives.
abbrev pub collect_at :
    ℕ
    → List Relocation
    → List Relocation
    → Bool × List Relocation
    → RelocatedSection
    → Bool × List Relocation
collect_at text relocs new rest read_error = (false, relocs)
collect_at text relocs new rest section_end = rest
collect_at text relocs new rest (section_at i) =
    if i == text then (true, sort_by_offset (relocs ++ new)) else rest

-- The loop: what the function returns, and the relocations.
unfoldable pub collect_from : ℕ → List Relocation → List Section → Bool × List Relocation
collect_from text relocs [] = (true, relocs)
collect_from text relocs (s ∷ ss) =
    collect_at text relocs s.relocations (collect_from text relocs ss) s.relocated_section

abbrev is_unset : Option ℕ → Bool
is_unset none = true
is_unset (some i) = false

-- `none` is a failed assertion.
unfoldable pub collect_text_section_relocs :
    List Section → TextInfo → Section → Option (Bool × TextInfo)
collect_text_section_relocs sections info text_sec = do
  assert (is_unset info.text_section_index)
  let (ok, relocs) = collect_from text_sec.index info.text_relocs sections in
      some (ok, record { text_section_index = some text_sec.index; text_relocs = relocs })

unfoldable pub get_dyn_reloc_at_offset : List Relocation → ℕ → Option Relocation
get_dyn_reloc_at_offset [] loc = none
get_dyn_reloc_at_offset (r ∷ rs) loc =
    let rest = get_dyn_reloc_at_offset rs loc in if r.offset == loc then some r else rest

-- The predicate of getTextRelocAtOffset.
abbrev pub is_at : ℕ → ℕ → Relocation → Bool
is_at index size r = leb index r.offset && ltb r.offset (add64 index size)

unfoldable pub get_text_reloc_at_offset : List Relocation → ℕ → ℕ → Option Relocation
get_text_reloc_at_offset [] index size = none
get_text_reloc_at_offset (r ∷ rs) index size =
    let rest = get_text_reloc_at_offset rs index size in if is_at index size r then some r else rest

-- The value of getTextSectionAddress as a word: -1 where the file is no ELF file. `none` is
-- llvm_unreachable, or the failed assertion that the index is set.
unfoldable pub find_address : ℕ → List Section → Option ℕ
find_address i [] = none
find_address i (s ∷ ss) =
    let rest = find_address i ss in if s.index == i then some s.address else rest

unfoldable pub get_text_section_address : Bool → List Section → TextInfo → Option ℕ
get_text_section_address is_elf sections info =
    if is_elf
    then (do i ← info.text_section_index; find_address i sections)
    else some 18446744073709551615
