-- ===== src/X86/ArgTypes/Found.antt =====
-- The first loop of buildFuncArgTypeVector: what the maps hold.
use mathlib.Core.Option.{some-injective}
use llvm_mctoll.Base.{
  ℕ, ◌≤◌, ◌≡◌, ◌≢◌, ◌⊎◌, refl, sym, ap, subst, ◌∙◌, Bool, true, false, Option, none, some, List,
  ◌∷◌, ◌==◌, ==_iff, arith, inl, inr, Bool-cases, Option-cases, ◌>>=◌,
}
use llvm_mctoll.X86.Registers.{is_gp_reg, is_sse2_reg}
use llvm_mctoll.X86.Types.{IrType, X86Target, double_type}
use llvm_mctoll.X86.ArgTypes.{get_argument_number, find_arg, ArgMaps, larger, gp_arg_type, add_arg}

-- The register has the argument number k, as a general purpose register or as another.
abbrev pub Numbered : X86Target → ℕ → Bool → ℕ → Type 0
Numbered t r gp k = (is_gp_reg t.info r ≡ gp) × (get_argument_number t r ≡ some k)

-- The maps hold the registers of P and no others, each under its number.
pub record Holds (t : X86Target) (P : ℕ → Type 0) (s : ArgMaps) : Type 0 where
  pub gp_known :
      (k : ℕ) (ty : IrType)
      → find_arg k s.arg_num_type_map ≡ some ty
      → (r : ℕ) × P r × Numbered t r true k
  pub sse_known :
      (k : ℕ) (ty : IrType)
      → find_arg k s.sse_arg_num_type_map ≡ some ty
      → (r : ℕ) × P r × Numbered t r false k
  pub gp_found :
      (r k : ℕ)
      → P r
      → Numbered t r true k
      → (find_arg k s.arg_num_type_map ≡ some (gp_arg_type t r)) × (k ≤ s.max_gp_arg_num)
  pub sse_found :
      (r k : ℕ)
      → P r
      → Numbered t r false k
      → (find_arg k s.sse_arg_num_type_map ≡ some double_type) × (k ≤ s.max_sse_arg_num)

-- No register of P has the number that r has.
abbrev pub IsNew : X86Target → (ℕ → Type 0) → ℕ → Type 0
IsNew t P r = (q k : ℕ) (gp : Bool) → P q → Numbered t r gp k → Numbered t q gp k → ⊥

abbrev pub With : (ℕ → Type 0) → ℕ → ℕ → Type 0
With P r q = P q ⊎ (q ≡ r)

find_here :
    (n k : ℕ) (ty : IrType) (m : List (ℕ × IrType)) → n ≡ k → find_arg k ((n, ty) ∷ m) ≡ some ty
unfolding find_arg
find_here n k ty m e = rw ((==_iff n k).1 e) refl

find_there :
    (n k : ℕ) (ty : IrType) (m : List (ℕ × IrType))
    → n ≢ k
    → find_arg k ((n, ty) ∷ m) ≡ find_arg k m
unfolding find_arg
find_there n k ty m e = ground arith

-- A register with a number that is no general purpose register is an SSE register.
has_class :
    (t : X86Target) (r n : ℕ)
    → is_gp_reg t.info r ≡ false
    → get_argument_number t r ≡ some n
    → is_sse2_reg t.info r ≡ true
unfolding is_gp_reg get_argument_number
has_class t r n g f = ground arith

larger-le : (n m k : ℕ) → (k ≡ n) ⊎ (k ≤ m) → k ≤ larger n m
larger-le n m k h = ground arith

module _ (t : X86Target) (P : ℕ → Type 0) (r : ℕ) (s : ArgMaps) (h : Holds t P s)
    (new : IsNew t P r) where
  -- A register without a number changes nothing.
  Holds-none : get_argument_number t r ≡ none → Holds t (With P r) s
  Holds-none e = record {
    gp_known = λ k ty f. let (q, p, n) = h.gp_known k ty f in (q, inl p, n);
    sse_known = λ k ty f. let (q, p, n) = h.sse_known k ty f in (q, inl p, n);
    gp_found =
        λ q k w n. elim w [ inl p ↦ h.gp_found q k p n | inr same ↦ absurd (none_of q k same n.1) ];
    sse_found = λ q k w n. elim w [
      | inl p ↦ h.sse_found q k p n
      | inr same ↦ absurd (none_of q k same n.1)
    ];
  }
    where
      none_of : (q k : ℕ) → q ≡ r → get_argument_number t q ≡ some k → ⊥
      none_of q k same f = let g = subst (λ z. get_argument_number t z ≡ some k) same f in cc

  -- A general purpose register is added to its map.
  abbrev with_gp : ℕ → ArgMaps
  with_gp n = record s {
    arg_num_type_map = (n, gp_arg_type t r) ∷ s.arg_num_type_map;
    max_gp_arg_num = larger n s.max_gp_arg_num;
  }

  gp_is_new : (n : ℕ) → Numbered t r true n → find_arg n s.arg_num_type_map ≡ none
  gp_is_new n e = elim (Option-cases (find_arg n s.arg_num_type_map)) [
    | inl f ↦ f
    | inr (ty, f) ↦ let (q, p, m) = h.gp_known n ty f in absurd (new q n true p e m)
  ]

  -- A register with the number n is the new one, where an old one has another number.
  other_number : (q n k : ℕ) (gp : Bool) → P q → Numbered t r gp n → Numbered t q gp k → n ≢ k
  other_number q n k gp p e m same = new q k gp p (e.0, e.1 ∙ ap some same) m

  same_number : (q n k : ℕ) (gp : Bool) → q ≡ r → Numbered t r gp n → Numbered t q gp k → n ≡ k
  same_number q n k gp same e m =
      some-injective _ _ (sym e.1 ∙ ap (get_argument_number t) (sym same) ∙ m.1)

  not_both : (q n k : ℕ) → q ≡ r → Numbered t r true n → Numbered t q false k → ⊥
  not_both q n k same e m = let clash = sym e.0 ∙ ap (is_gp_reg t.info) (sym same) ∙ m.0 in cc

  not_both_sse : (q n k : ℕ) → q ≡ r → Numbered t r false n → Numbered t q true k → ⊥
  not_both_sse q n k same e m = let clash = sym e.0 ∙ ap (is_gp_reg t.info) (sym same) ∙ m.0 in cc

  Holds-gp : (n : ℕ) → Numbered t r true n → Holds t (With P r) (with_gp n)
  Holds-gp n e = record {
    gp_known = λ k ty f. elim (Bool-cases (n == k)) [
      | inl same ↦ (r, inr refl, (e.0, e.1 ∙ ap some ((==_iff n k).0 same)))
      | inr other ↦
          let apart : n ≢ k = ground arith in
          let (q, p, m) =
            h.gp_known k ty (sym (find_there n k (gp_arg_type t r) s.arg_num_type_map apart) ∙ f) in
          (q, inl p, m)
    ];
    sse_known = λ k ty f. let (q, p, m) = h.sse_known k ty f in (q, inl p, m);
    gp_found = λ q k w m. elim w [
      | inl p ↦
          let old = h.gp_found q k p m in
          (
            find_there n k _ _ (other_number q n k true p e m) ∙ old.0,
            larger-le n s.max_gp_arg_num k (inr old.1),
          )
      | inr same ↦
          let equal = same_number q n k true same e m in
          (
            find_here n k _ _ equal ∙ ap some (ap (gp_arg_type t) (sym same)),
            larger-le n s.max_gp_arg_num k (inl (sym equal)),
          )
    ];
    sse_found = λ q k w m. elim w [
      | inl p ↦ h.sse_found q k p m
      | inr same ↦ absurd (not_both q n k same e m)
    ];
  }

  -- Another register is added to the other map.
  abbrev with_sse : ℕ → ArgMaps
  with_sse n = record s {
    sse_arg_num_type_map = (n, double_type) ∷ s.sse_arg_num_type_map;
    max_sse_arg_num = larger n s.max_sse_arg_num;
  }

  sse_is_new : (n : ℕ) → Numbered t r false n → find_arg n s.sse_arg_num_type_map ≡ none
  sse_is_new n e = elim (Option-cases (find_arg n s.sse_arg_num_type_map)) [
    | inl f ↦ f
    | inr (ty, f) ↦ let (q, p, m) = h.sse_known n ty f in absurd (new q n false p e m)
  ]

  Holds-sse : (n : ℕ) → Numbered t r false n → Holds t (With P r) (with_sse n)
  Holds-sse n e = record {
    sse_known = λ k ty f. elim (Bool-cases (n == k)) [
      | inl same ↦ (r, inr refl, (e.0, e.1 ∙ ap some ((==_iff n k).0 same)))
      | inr other ↦
          let apart : n ≢ k = ground arith in
          let (q, p, m) =
            h.sse_known k ty (sym (find_there n k double_type s.sse_arg_num_type_map apart) ∙ f) in
          (q, inl p, m)
    ];
    gp_known = λ k ty f. let (q, p, m) = h.gp_known k ty f in (q, inl p, m);
    sse_found = λ q k w m. elim w [
      | inl p ↦
          let old = h.sse_found q k p m in
          (
            find_there n k _ _ (other_number q n k false p e m) ∙ old.0,
            larger-le n s.max_sse_arg_num k (inr old.1),
          )
      | inr same ↦
          let equal = same_number q n k false same e m in
          (find_here n k _ _ equal, larger-le n s.max_sse_arg_num k (inl (sym equal)))
    ];
    gp_found = λ q k w m. elim w [
      | inl p ↦ h.gp_found q k p m
      | inr same ↦ absurd (not_both_sse q n k same e m)
    ];
  }

  -- The body of the loop does not fail.
  pub add_arg-Holds :
      (o : Option ℕ)
      → get_argument_number t r ≡ o
      → (s' : ArgMaps) × (add_arg t r s o ≡ some s') × Holds t (With P r) s'
  unfolding add_arg ◌>>=◌
  add_arg-Holds none e = (s, refl, Holds-none e)
  add_arg-Holds (some n) e = elim (Bool-cases (is_gp_reg t.info r)) [
    | inl g ↦ (with_gp n, rw (g, gp_is_new n (g, e)) refl, Holds-gp n (g, e))
    | inr g ↦ (with_sse n, rw (g, is_sse n g e, sse_is_new n (g, e)) refl, Holds-sse n (g, e))
  ]
    where
      is_sse :
          (n : ℕ)
          → is_gp_reg t.info r ≡ false
          → get_argument_number t r ≡ some n
          → is_sse2_reg t.info r ≡ true
      is_sse n g f = has_class t r n g f
