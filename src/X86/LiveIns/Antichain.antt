-- ===== src/X86/LiveIns/Antichain.antt =====
-- When addRegisterToFunctionLiveInSet keeps the set free of a register together with a part of it.
use llvm_mctoll.Base.{
  ℕ, ◌≡◌, ◌↔◌, sym, ◌∙◌, true, Option, none, some, List, [], ◌∷◌, arith, ◌==◌, ==_iff, Bool-cases,
  inl, inr,
}
use mathlib.Core.Bool.{true≢false}
use llvm_mctoll.X86.Instr.{mem}
use llvm_mctoll.X86.Types.{X86Target}
use llvm_mctoll.X86.LiveIns.{
  set_insert, set_erase, first_live_in, add_below, add_above, add_register_to_function_live_in_set,
}
use llvm_mctoll.X86.LiveIns.Sorted.{
  IsSorted, mem-set_insert, mem-set_insert_cases, mem-set_erase, IsSorted-set_insert,
  IsSorted-set_erase,
}

-- What is said of the first register in the set.
abbrev pub IsFirst : List ℕ → List ℕ → Option ℕ → Type 0
IsFirst qs set none = (q : ℕ) → mem q qs ≡ true → mem q set ≡ true → ⊥
IsFirst qs set (some q) = (mem q qs ≡ true) × (mem q set ≡ true)

pub first_live_in-IsFirst : (qs set : List ℕ) → IsFirst qs set (first_live_in qs set)
unfolding first_live_in mem
first_live_in-IsFirst [] set = λ q h k. cc
first_live_in-IsFirst (x ∷ qs) set = ground (arith, first_live_in-IsFirst qs set)

-- LLVM's tables of the registers: the parts of a register are not the register itself, parts of
-- parts are parts, and the two iterators agree.
pub record IsTable (t : X86Target) : Type 0 where
  pub irreflexive : (r : ℕ) → mem r (t.sub_regs r) ≡ true → ⊥
  pub transitive :
      (r q p : ℕ)
      → mem q (t.sub_regs r) ≡ true
      → mem p (t.sub_regs q) ≡ true
      → mem p (t.sub_regs r) ≡ true
  pub converse : (r q : ℕ) → mem r (t.sub_regs q) ≡ true → mem q (t.super_regs r) ≡ true
  pub converse_super : (r q : ℕ) → mem q (t.super_regs r) ≡ true → mem r (t.sub_regs q) ≡ true

module _ (t : X86Target) where
  -- No register of the set is a part of another.
  pub record IsAntichain (set : List ℕ) : Type 0 where
    pub sorted : IsSorted set
    pub apart : (a b : ℕ) → mem a set ≡ true → mem b set ≡ true → mem b (t.sub_regs a) ≡ true → ⊥

  -- The set has at most one part of the register.
  abbrev pub HasOnePart : ℕ → List ℕ → Type 0
  HasOnePart r set =
      (a b : ℕ)
      → mem a set ≡ true
      → mem b set ≡ true
      → mem a (t.sub_regs r) ≡ true
      → mem b (t.sub_regs r) ≡ true
      → a ≡ b

module _ (t : X86Target) (table : IsTable t) where
  -- A register is added that is a part of none of the set, and of which none is a part.
  IsAntichain-set_insert :
      (r : ℕ) (set : List ℕ)
      → IsAntichain t set
      → ((q : ℕ) → mem q set ≡ true → mem q (t.sub_regs r) ≡ true → ⊥)
      → ((q : ℕ) → mem q set ≡ true → mem r (t.sub_regs q) ≡ true → ⊥)
      → IsAntichain t (set_insert r set)
  IsAntichain-set_insert r set h below above = record {
    sorted = IsSorted-set_insert r set h.sorted;
    apart = λ a b ha hb p. grind (
      arith,
      mem-set_insert_cases r a set ha,
      mem-set_insert_cases r b set hb,
      below,
      above,
      h.apart a b,
      table.irreflexive r,
    );
  }

  IsAntichain-set_erase :
      (r : ℕ) (set : List ℕ) → IsAntichain t set → IsAntichain t (set_erase r set)
  IsAntichain-set_erase r set h = record {
    sorted = IsSorted-set_erase r set h.sorted;
    apart = λ a b ha hb p.
        h.apart a b ((mem-set_erase r a set h.sorted).0 ha).0
          ((mem-set_erase r b set h.sorted).0 hb).0 p;
  }

  -- The part of the register that was in the set is the only one, and gives way.
  IsAntichain-replace :
      (r q : ℕ) (set : List ℕ)
      → IsAntichain t set
      → HasOnePart t r set
      → mem q (t.sub_regs r) ≡ true
      → mem q set ≡ true
      → IsAntichain t (set_insert r (set_erase q set))
  IsAntichain-replace r q set h one sub live =
      IsAntichain-set_insert r (set_erase q set) (IsAntichain-set_erase q set h) below above
    where
      below : (p : ℕ) → mem p (set_erase q set) ≡ true → mem p (t.sub_regs r) ≡ true → ⊥
      below p hp sp =
          let (old, ne) = (mem-set_erase q p set h.sorted).0 hp in ne (one p q old live sp sub)

      above : (p : ℕ) → mem p (set_erase q set) ≡ true → mem r (t.sub_regs p) ≡ true → ⊥
      above p hp sp =
          let (old, ne) = (mem-set_erase q p set h.sorted).0 hp in
          h.apart p q old live (table.transitive p r q sp sub)

  add_below-IsAntichain :
      (r : ℕ) (set : List ℕ)
      → IsAntichain t set
      → ((q : ℕ) → mem q (t.sub_regs r) ≡ true → mem q set ≡ true → ⊥)
      → (o : Option ℕ) → IsFirst (t.super_regs r) set o
      → IsAntichain t (add_below set r o)
  add_below-IsAntichain r set h none_below none f =
      IsAntichain-set_insert r set h (λ q live sub. none_below q sub live)
        (λ q live sup. f q (table.converse r q sup) live)
  add_below-IsAntichain r set h none_below (some q) f = h

  add_above-IsAntichain :
      (r : ℕ) (set : List ℕ)
      → IsAntichain t set
      → HasOnePart t r set
      → (o : Option ℕ) → IsFirst (t.sub_regs r) set o
      → IsAntichain t (add_above t set r o)
  add_above-IsAntichain r set h one none f =
      add_below-IsAntichain r set h f _ (first_live_in-IsFirst (t.super_regs r) set)
  add_above-IsAntichain r set h one (some q) f = IsAntichain-replace r q set h one f.0 f.1

  add_register_to_function_live_in_set-keeps :
      (set : List ℕ) (r : ℕ)
      → IsAntichain t set
      → HasOnePart t r set
      → IsAntichain t (add_register_to_function_live_in_set t set r)
  unfolding add_register_to_function_live_in_set
  add_register_to_function_live_in_set-keeps set r h one =
      ground (arith, add_above-IsAntichain r set h one _ (first_live_in-IsFirst (t.sub_regs r) set))

  -- Each other part of r that was in the set would stand beside r.
  add_above-first :
      (r a q : ℕ) (set : List ℕ)
      → IsAntichain t set
      → IsAntichain t (set_insert r (set_erase q set))
      → mem a set ≡ true
      → mem a (t.sub_regs r) ≡ true
      → a ≡ q
  add_above-first r a q set h k live sub = elim (Bool-cases (a == q)) [
    | inl e ↦ (==_iff a q).0 e
    | inr n ↦
        let still =
          (mem-set_erase q a set h.sorted).1 (live, λ e. true≢false (sym ((==_iff a q).1 e) ∙ n)) in
        let here : mem r (set_insert r (set_erase q set)) ≡ true =
          ground (arith, mem-set_insert r r (set_erase q set)) in
        let there : mem a (set_insert r (set_erase q set)) ≡ true =
          ground (arith, mem-set_insert r a (set_erase q set)) in
        absurd (k.apart r a here there sub)
  ]

  HasOnePart-add_above :
      (r : ℕ) (set : List ℕ)
      → IsAntichain t set
      → (o : Option ℕ) → IsFirst (t.sub_regs r) set o
      → IsAntichain t (add_above t set r o)
      → HasOnePart t r set
  HasOnePart-add_above r set h none f k a b la lb sa sb = absurd (f a sa la)
  HasOnePart-add_above r set h (some q) f k a b la lb sa sb =
      add_above-first r a q set h k la sa ∙ sym (add_above-first r b q set h k lb sb)

  HasOnePart-add :
      (set : List ℕ) (r : ℕ)
      → IsAntichain t set
      → IsAntichain t (add_register_to_function_live_in_set t set r)
      → HasOnePart t r set
  unfolding add_register_to_function_live_in_set
  HasOnePart-add set r h k = elim (Bool-cases (mem r set)) [
    | inl e ↦ λ a b la lb sa sb. absurd (h.apart r a e la sa)
    | inr n ↦ HasOnePart-add_above r set h _ (first_live_in-IsFirst (t.sub_regs r) set) (rw n at k)
  ]

  -- By LLVM's table, a sorted set with no register and a part of it is one afterwards exactly where at
  -- most one part of the added register was in it: only one part is ever taken out.
  pub add_register_to_function_live_in_set-IsAntichain :
      (set : List ℕ) (r : ℕ)
      → IsAntichain t set
      → IsAntichain t (add_register_to_function_live_in_set t set r) ↔ HasOnePart t r set
  add_register_to_function_live_in_set-IsAntichain set r h =
      (HasOnePart-add set r h, add_register_to_function_live_in_set-keeps set r h)
