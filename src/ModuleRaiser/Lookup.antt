-- ===== src/ModuleRaiser/Lookup.antt =====
-- What the searches of Raiser/ModuleRaiser.cpp for functions find.
use llvm_mctoll.Base.{
  ℕ, zero, suc, ◌+◌, ◌≤◌, ◌<◌, ◌==◌, ==_iff, ltb, leb, Bool, true, false, ◌&&◌, ◌≡◌, ◌≢◌, refl, sym,
  subst, ◌⊎◌, ◌∙◌, none, some, List, [], ◌∷◌, All, get_elem?, Bool-cases, inl, inr, arith, ◌>>=◌,
}
use mathlib.Core.Option.{some-injective}
use llvm_mctoll.Base.Word.{add64}
use llvm_mctoll.ModuleRaiser.Relocs.{
  Relocation, Section, TextInfo, get_text_reloc_at_offset, get_text_section_address, is_at,
}
use llvm_mctoll.ModuleRaiser.Search.{Sorted, All-from}
use llvm_mctoll.ModuleRaiser.Functions.{
  FunctionRaiser, raised_at, get_raised_function_at, called_function,
  get_called_function_using_text_reloc,
}

-- The functions start at different words.
abbrev pub DistinctStarts : List FunctionRaiser → Type 0
DistinctStarts [] = Unit
DistinctStarts (m ∷ ms) =
    (m.func_start < 18446744073709551616)
    × All (λ q. q.func_start ≢ m.func_start) ms
    × DistinctStarts ms

add64-cancel :
    (a b c : ℕ)
    → a < 18446744073709551616
    → b < 18446744073709551616
    → add64 a c ≡ add64 b c
    → a ≡ b
unfolding add64
add64-cancel a b c h k e = omega arith

All-get :
    {A : Type 0} (P : A → Type 0) (xs : List A) (i : ℕ) (x : A)
    → All P xs
    → get_elem? xs i ≡ some x
    → P x
All-get P [] i x h e = cc
All-get P (y ∷ xs) zero x h e = subst P (some-injective _ _ e) h.0
All-get P (y ∷ xs) (suc i) x h e = All-get P xs i x h.1 e

start_is_word :
    (ms : List FunctionRaiser) (i : ℕ) (m : FunctionRaiser)
    → DistinctStarts ms
    → get_elem? ms i ≡ some m
    → m.func_start < 18446744073709551616
start_is_word [] i m d e = cc
start_is_word (x ∷ ms) zero m d e =
    subst (λ y. y.func_start < 18446744073709551616) (some-injective _ _ e) d.0
start_is_word (x ∷ ms) (suc i) m d e = start_is_word ms i m d.2 e

==_refl : (a : ℕ) → (a == a) ≡ true
==_refl a = ground arith

raised_at-get_elem? :
    (address : ℕ) (ms : List FunctionRaiser) (i : ℕ) (m : FunctionRaiser)
    → DistinctStarts ms
    → get_elem? ms i ≡ some m
    → raised_at address ms (add64 m.func_start address) ≡ m.raised_function
unfolding raised_at
raised_at-get_elem? address [] i m d e = cc
raised_at-get_elem? address (x ∷ ms) zero m d e =
    rw (some-injective _ _ e, ==_refl (add64 m.func_start address)) refl
raised_at-get_elem? address (x ∷ ms) (suc i) m d e =
    elim (Bool-cases (add64 x.func_start address == add64 m.func_start address)) [
      | inl t ↦ absurd (
          All-get (λ q. q.func_start ≢ x.func_start) ms i m d.1 e
            (sym (
              add64-cancel x.func_start m.func_start address d.0 (start_is_word ms i m d.2 e)
                ((==_iff _ _).0 t))))
      | inr f ↦ rw f (raised_at-get_elem? address ms i m d.2 e)
    ]

-- Where the functions of a module start at different words, getRaisedFunctionAt finds each of them
-- at its start behind the address of the text section: the result is its raised function, or none
-- where it has none yet.
pub get_raised_function_at-get_elem? :
    (is_elf : Bool) (sections : List Section) (info : TextInfo) (address : ℕ)
    (ms : List FunctionRaiser) (i : ℕ) (m : FunctionRaiser)
    → get_text_section_address is_elf sections info ≡ some address
    → DistinctStarts ms
    → get_elem? ms i ≡ some m
    → get_raised_function_at is_elf sections info ms (add64 m.func_start address)
      ≡ some m.raised_function
unfolding get_raised_function_at ◌>>=◌
get_raised_function_at-get_elem? is_elf sections info address ms i m h d e =
    rw (h, raised_at-get_elem? address ms i m d e) refl

module _ (loc size : ℕ) (fits : loc + (loc + size) < 18446744073709551616) where
  end_of : add64 loc size ≡ loc + size
  unfolding add64
  end_of = omega (arith, fits)

  end_of_end : add64 loc (loc + size) ≡ loc + (loc + size)
  unfolding add64
  end_of_end = omega (arith, fits)

  at_later : (r : Relocation) → loc + size ≤ r.offset → is_at loc size r ≡ false
  at_later r h = rw end_of (ground arith)

  at_earlier : (n : ℕ) (r : Relocation) → r.offset < loc → is_at loc n r ≡ false
  at_earlier n r h = ground arith

  at_wider : (r : Relocation) → is_at loc size r ≡ true → is_at loc (add64 loc size) r ≡ true
  at_wider r h =
      let t : (leb loc r.offset && ltb r.offset (loc + size)) ≡ true = rw end_of at h in
      rw (end_of, end_of_end) (ground arith)

  not_at : (r : Relocation) → is_at loc size r ≡ false → (r.offset < loc) ⊎ (loc + size ≤ r.offset)
  not_at r h =
      let t : (leb loc r.offset && ltb r.offset (loc + size)) ≡ false = rw end_of at h in
      ground arith

  none≢some : {A : Type 0} {a : A} → none ≢ some a
  none≢some e = cc

  none_later :
      (rs : List Relocation)
      → All (λ q. loc + size ≤ q.offset) rs
      → get_text_reloc_at_offset rs loc size ≡ none
  unfolding get_text_reloc_at_offset
  none_later [] h = refl
  none_later (r ∷ rs) h = rw (at_later r h.0) (none_later rs h.1)

  same_reloc :
      (rs : List Relocation) (r : Relocation)
      → Sorted rs
      → get_text_reloc_at_offset rs loc size ≡ some r
      → get_text_reloc_at_offset rs loc (add64 loc size) ≡ some r
  unfolding get_text_reloc_at_offset
  same_reloc [] r s e = cc
  same_reloc (q ∷ rs) r s e = elim (Bool-cases (is_at loc size q)) [
    | inl t ↦ rw (at_wider q t) (rw t at e)
    | inr f ↦ elim (not_at q f) [
      | inl l ↦ rw (at_earlier (add64 loc size) q l) (same_reloc rs r s.1 (rw f at e))
      | inr g ↦
          absurd (
            none≢some (sym (none_later rs (All-from (loc + size) q.offset rs g s.0)) ∙ (rw f at e)))
    ]
  ]

  -- Where the relocations are sorted and the instruction at loc has one, nothing wraps:
  -- getCalledFunctionUsingTextReloc, which searches [loc, loc + (loc + size)), takes the relocation of
  -- the instruction, and returns the function of the name of its symbol.
  pub get_called_function_using_text_reloc-own :
      (rs : List Relocation) (ms : List FunctionRaiser) (r : Relocation)
      → Sorted rs
      → get_text_reloc_at_offset rs loc size ≡ some r
      → get_called_function_using_text_reloc rs ms loc size ≡ called_function ms (some r)
  unfolding get_called_function_using_text_reloc
  get_called_function_using_text_reloc-own rs ms r s e = rw (same_reloc rs r s e) refl

  -- The instruction at loc has no relocation: the first relocation behind it is taken, as long as
  -- its offset is below loc + (loc + size), although it belongs to a later instruction.
  pub get_called_function_using_text_reloc-later :
      (rs : List Relocation) (ms : List FunctionRaiser) (r : Relocation)
      → Sorted (r ∷ rs)
      → loc + size ≤ r.offset
      → r.offset < loc + (loc + size)
      → (get_text_reloc_at_offset (r ∷ rs) loc size ≡ none)
        × (get_called_function_using_text_reloc (r ∷ rs) ms loc size ≡ called_function ms (some r))
  unfolding get_called_function_using_text_reloc get_text_reloc_at_offset
  get_called_function_using_text_reloc-later rs ms r s lo hi =
      let t : is_at loc (loc + size) r ≡ true = rw end_of_end (ground arith) in
      (none_later (r ∷ rs) (lo, All-from (loc + size) r.offset rs lo s.0), rw (end_of, t) refl)
