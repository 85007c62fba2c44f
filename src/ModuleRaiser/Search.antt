-- ===== src/ModuleRaiser/Search.antt =====
-- The relocations that collectTextSectionRelocs gathers, and what the searches find among them.
use llvm_mctoll.Base.{
  ℕ, suc, ◌+◌, ◌%◌, dec_lt, ◌≤◌, ◌<◌, ◌==◌, leb, leb→le, ==_iff, Bool, true, false, ◌≡◌, ◌↔◌, refl,
  sym, ap, ◌∙◌, Option, none, some, List, [], ◌∷◌, All, get_elem?, Bool-cases, inl, inr, arith,
  Ensures, Ensures-bind, Ensures-some, done,
}
use mathlib.Core.List.{Perm}
use mathlib.Core.List.Perm
use mathlib.Core.Bool.{true≢false}
use llvm_mctoll.Base.Word.{add64}
use llvm_mctoll.ModuleRaiser.Relocs.{
  Relocation, Section, RelocatedSection, TextInfo, insert_by_offset, sort_by_offset, collect_at,
  collect_from, collect_text_section_relocs, get_text_reloc_at_offset, is_at,
}

abbrev pub Sorted : List Relocation → Type 0
Sorted [] = Unit
Sorted (r ∷ rs) = All (λ q. r.offset ≤ q.offset) rs × Sorted rs

pub All-from :
    (a b : ℕ) (rs : List Relocation)
    → a ≤ b
    → All (λ q. b ≤ q.offset) rs
    → All (λ q. a ≤ q.offset) rs
All-from a b [] h k = tt
All-from a b (r ∷ rs) h k = (omega (arith, k.0), All-from a b rs h k.1)

insert_by_offset-from :
    (a : ℕ) (r : Relocation) (rs : List Relocation)
    → a ≤ r.offset
    → All (λ q. a ≤ q.offset) rs
    → All (λ q. a ≤ q.offset) (insert_by_offset r rs)
unfolding insert_by_offset
insert_by_offset-from a r [] h k = (h, tt)
insert_by_offset-from a r (q ∷ qs) h k = elim (Bool-cases (leb r.offset q.offset)) [
  | inl e ↦ rw e (h, k)
  | inr e ↦ rw e (k.0, insert_by_offset-from a r qs h k.1)
]

leb-false : (a b : ℕ) → leb a b ≡ false → b ≤ a
leb-false a b h = ground arith

insert_by_offset-Sorted :
    (r : Relocation) (rs : List Relocation) → Sorted rs → Sorted (insert_by_offset r rs)
unfolding insert_by_offset
insert_by_offset-Sorted r [] h = (tt, tt)
insert_by_offset-Sorted r (q ∷ qs) h = elim (Bool-cases (leb r.offset q.offset)) [
  | inl e ↦ rw e ((leb→le _ _ e, All-from r.offset q.offset qs (leb→le _ _ e) h.0), h)
  | inr e ↦
      rw e (
        insert_by_offset-from q.offset r qs (leb-false _ _ e) h.0,
        insert_by_offset-Sorted r qs h.1,
      )
]

sort_by_offset-Sorted : (rs : List Relocation) → Sorted (sort_by_offset rs)
unfolding sort_by_offset
sort_by_offset-Sorted [] = tt
sort_by_offset-Sorted (r ∷ rs) = insert_by_offset-Sorted r _ (sort_by_offset-Sorted rs)

insert_by_offset-Perm :
    (r : Relocation) (rs : List Relocation) → Perm (insert_by_offset r rs) (r ∷ rs)
unfolding insert_by_offset
insert_by_offset-Perm r [] = Perm.refl _
insert_by_offset-Perm r (q ∷ qs) = elim (Bool-cases (leb r.offset q.offset)) [
  | inl e ↦ rw e (Perm.refl _)
  | inr e ↦ rw e (Perm.trans (Perm.cons q (insert_by_offset-Perm r qs)) (Perm.swap r q qs))
]

sort_by_offset-Perm : (rs : List Relocation) → Perm (sort_by_offset rs) rs
unfolding sort_by_offset
sort_by_offset-Perm [] = Perm.refl _
sort_by_offset-Perm (r ∷ rs) =
    Perm.trans (insert_by_offset-Perm r _) (Perm.cons r (sort_by_offset-Perm rs))

-- A relocation in [index, index + size), with the least offset of those in the list.
abbrev pub InRange : ℕ → ℕ → Relocation → Type 0
InRange index size r = (index ≤ r.offset) × (r.offset < index + size)

pub data FoundAt (index size : ℕ) (rs : List Relocation) : Option Relocation → Type 0 where
  found :
      {r : Relocation} (i : ℕ)
      → get_elem? rs i ≡ some r
      → InRange index size r
      → All (λ q. index ≤ q.offset → r.offset ≤ q.offset) rs
      → FoundAt index size rs (some r)
  not_found : All (λ q. ¬ InRange index size q) rs → FoundAt index size rs none

is_at_iff :
    (index size : ℕ) (r : Relocation)
    → index + size < 18446744073709551616
    → (is_at index size r ≡ true) ↔ InRange index size r
unfolding add64
is_at_iff index size r h =
    let wrap : (index + size) % 18446744073709551616 ≡ index + size = omega arith in
    rw wrap (ground arith)

weaken :
    (index a : ℕ) (rs : List Relocation)
    → All (λ q. a ≤ q.offset) rs
    → All (λ q. index ≤ q.offset → a ≤ q.offset) rs
weaken index a [] h = tt
weaken index a (r ∷ rs) h = (λ _. h.0, weaken index a rs h.1)

out_of_range :
    (index size : ℕ) (r : Relocation)
    → ¬ InRange index size r
    → index ≤ r.offset
    → index + size ≤ r.offset
out_of_range index size r n h = elim (dec_lt r.offset (index + size)) [
  | yes l ↦ absurd (n (h, l))
  | no g ↦ omega (arith, g)
]

FoundAt-skip :
    (index size : ℕ) (r : Relocation) (rs : List Relocation)
    → ¬ InRange index size r
    → (o : Option Relocation) → FoundAt index size rs o
    → FoundAt index size (r ∷ rs) o
FoundAt-skip index size r rs n _ (not_found all) = not_found (n, all)
FoundAt-skip index size r rs n _ (found {r = q} i e b all) =
    found (suc i) e b ((λ h. omega (arith, b.1, out_of_range index size r n h)), all)

-- In a list of relocations that is sorted, where index + size does not wrap: the search returns a
-- relocation in [index, index + size) with the least offset of those from index on, and none only
-- where the list has none in the range.
pub get_text_reloc_at_offset-FoundAt :
    (index size : ℕ) (rs : List Relocation)
    → index + size < 18446744073709551616
    → Sorted rs
    → FoundAt index size rs (get_text_reloc_at_offset rs index size)
unfolding get_text_reloc_at_offset
get_text_reloc_at_offset-FoundAt index size [] h s = not_found tt
get_text_reloc_at_offset-FoundAt index size (r ∷ rs) h s = elim (Bool-cases (is_at index size r)) [
  | inl e ↦ rw e (
      found 0 refl ((is_at_iff index size r h).0 e)
        (λ _. omega arith, weaken index r.offset rs s.0))
  | inr n ↦ rw n (
      FoundAt-skip index size r rs (λ i. true≢false (sym ((is_at_iff index size r h).1 i) ∙ n)) _
        (get_text_reloc_at_offset-FoundAt index size rs h s.1))
]

-- What the loop over the sections leaves, where no relocations were collected before: none, or
-- those of the first section whose relocated section is the text section, sorted.
pub data Collected (text : ℕ) : List Section → List Relocation → Type 0 where
  none_collected : {ss : List Section} → Collected text ss []
  collected :
      {s : Section} {ss : List Section} {rs : List Relocation} (i : ℕ)
      → get_elem? ss i ≡ some s
      → s.relocated_section ≡ RelocatedSection.section_at text
      → Perm rs s.relocations
      → Sorted rs
      → Collected text ss rs

Collected-skip :
    (text : ℕ) (s : Section) (ss : List Section) (rs : List Relocation)
    → Collected text ss rs
    → Collected text (s ∷ ss) rs
Collected-skip text s ss _ none_collected = none_collected
Collected-skip text s ss _ (collected i e t p o) = collected (suc i) e t p o

collect_at-Collected :
    (text : ℕ) (s : Section) (ss : List Section) (rest : Bool × List Relocation)
    → Collected text ss rest.1
    → (at : RelocatedSection) → s.relocated_section ≡ at
    → Collected text (s ∷ ss) (collect_at text [] s.relocations rest at).1
collect_at-Collected text s ss rest h RelocatedSection.read_error e = none_collected
collect_at-Collected text s ss rest h RelocatedSection.section_end e =
    Collected-skip text s ss rest.1 h
collect_at-Collected text s ss rest h (RelocatedSection.section_at i) e =
    elim (Bool-cases (i == text)) [
      | inl t ↦ rw t (
          collected 0 refl (e ∙ ap RelocatedSection.section_at ((==_iff i text).0 t))
            (sort_by_offset-Perm s.relocations) (sort_by_offset-Sorted s.relocations))
      | inr n ↦ rw n (Collected-skip text s ss rest.1 h)
    ]

collect_from-Collected :
    (text : ℕ) (ss : List Section) → Collected text ss (collect_from text [] ss).1
unfolding collect_from
collect_from-Collected text [] = none_collected
collect_from-Collected text (s ∷ ss) =
    collect_at-Collected text s ss _ (collect_from-Collected text ss) s.relocated_section refl

Collected-Sorted :
    (text : ℕ) (ss : List Section) (rs : List Relocation) → Collected text ss rs → Sorted rs
Collected-Sorted text ss _ none_collected = tt
Collected-Sorted text ss _ (collected i e t p o) = o

-- The index of the text section is set, and the relocations are the section's.
abbrev pub HasTextRelocs : List Section → Section → TextInfo → Type 0
HasTextRelocs sections text_sec info =
    (info.text_section_index ≡ some text_sec.index)
    × Collected text_sec.index sections info.text_relocs

Ensures-collected :
    (sections : List Section) (info : TextInfo) (text_sec : Section)
    → info.text_relocs ≡ []
    → Ensures
        (λ r. HasTextRelocs sections text_sec r.1)
        (collect_text_section_relocs sections info text_sec)
unfolding collect_text_section_relocs
Ensures-collected sections info text_sec e =
    Ensures-bind _ _ λ _ _. done (refl, rw e (collect_from-Collected text_sec.index sections))

-- Collecting the relocations of the text section, where none were collected before, sets the index
-- of the text section, and leaves no relocations, or, sorted, those of a section whose relocated
-- section is the text section. A search for the relocation of an instruction whose end does not wrap
-- is then right: it returns one in [index, index + size) with the least offset of those from index
-- on, and none only where there is none in the range.
pub collect_text_section_relocs-FoundAt :
    (sections : List Section) (info info' : TextInfo) (text_sec : Section) (ok : Bool)
    (index size : ℕ)
    → info.text_relocs ≡ []
    → collect_text_section_relocs sections info text_sec ≡ some (ok, info')
    → index + size < 18446744073709551616
    → HasTextRelocs sections text_sec info'
      × FoundAt index size info'.text_relocs (get_text_reloc_at_offset info'.text_relocs index size)
collect_text_section_relocs-FoundAt sections info info' text_sec ok index size none_yet e h =
    let has = Ensures-some (Ensures-collected sections info text_sec none_yet) e in
    (
      has,
      get_text_reloc_at_offset-FoundAt index size _ h
          (Collected-Sorted text_sec.index sections _ has.1),
    )
