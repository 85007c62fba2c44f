-- ===== src/X86/LiveIns/Covered.antt =====
-- What the set of live-in registers stands for: its registers and their parts.
use llvm_mctoll.Base.{
  ℕ, ◌≡◌, ◌⊎◌, ◌↔◌, subst, true, Option, none, some, List, ◌==◌, ==_iff, arith, inl, inr,
  Bool-cases,
}
use llvm_mctoll.X86.Instr.{mem}
use llvm_mctoll.X86.Types.{X86Target}
use llvm_mctoll.X86.LiveIns.{
  set_insert, set_erase, add_below, add_above, add_register_to_function_live_in_set,
}
use llvm_mctoll.X86.LiveIns.Sorted.{IsSorted, mem-set_insert, mem-set_insert_cases, mem-set_erase}
use llvm_mctoll.X86.LiveIns.Antichain.{IsTable, IsFirst, first_live_in-IsFirst}

module _ (t : X86Target) where
  -- The register, or one that it is a part of, is in the set.
  abbrev pub Covers : List ℕ → ℕ → Type 0
  Covers set x = (p : ℕ) × (mem p set ≡ true) × ((p ≡ x) ⊎ (mem x (t.sub_regs p) ≡ true))

  abbrev pub CoversOr : List ℕ → ℕ → ℕ → Type 0
  CoversOr set r x = Covers set x ⊎ ((r ≡ x) ⊎ (mem x (t.sub_regs r) ≡ true))

module _ (t : X86Target) (table : IsTable t) where
  mem-insert_self : (r : ℕ) (set : List ℕ) → mem r (set_insert r set) ≡ true
  mem-insert_self r set = ground (arith, mem-set_insert r r set)

  mem-insert_old : (r q : ℕ) (set : List ℕ) → mem q set ≡ true → mem q (set_insert r set) ≡ true
  mem-insert_old r q set h = ground (arith, mem-set_insert r q set)

  Covers-set_insert : (r x : ℕ) (set : List ℕ) → Covers t (set_insert r set) x ↔ CoversOr t set r x
  Covers-set_insert r x set = (into, back)
    where
      into : Covers t (set_insert r set) x → CoversOr t set r x
      into (p, h, k) = elim (mem-set_insert_cases r p set h) [
        | inl e ↦ inr (subst (λ z. (z ≡ x) ⊎ (mem x (t.sub_regs z) ≡ true)) e k)
        | inr old ↦ inl (p, old, k)
      ]

      back : CoversOr t set r x → Covers t (set_insert r set) x
      back (inl (p, h, k)) = (p, mem-insert_old r p set h, k)
      back (inr k) = (r, mem-insert_self r set, k)

  -- The part q of r gives way to r.
  Covers-replace :
      (r q x : ℕ) (set : List ℕ)
      → IsSorted set
      → mem q (t.sub_regs r) ≡ true
      → CoversOr t (set_erase q set) r x ↔ CoversOr t set r x
  Covers-replace r q x set h sub = (into, back)
    where
      part : (q ≡ x) ⊎ (mem x (t.sub_regs q) ≡ true) → mem x (t.sub_regs r) ≡ true
      part (inl e) = subst (λ z. mem z (t.sub_regs r) ≡ true) e sub
      part (inr k) = table.transitive r q x sub k

      into : CoversOr t (set_erase q set) r x → CoversOr t set r x
      into (inl (p, m, k)) = inl (p, ((mem-set_erase q p set h).0 m).0, k)
      into (inr k) = inr k

      back : CoversOr t set r x → CoversOr t (set_erase q set) r x
      back (inl (p, m, k)) = elim (Bool-cases (p == q)) [
        | inl e ↦
            let same = (==_iff p q).0 e in
            inr (inr (part (subst (λ z. (z ≡ x) ⊎ (mem x (t.sub_regs z) ≡ true)) same k)))
        | inr n ↦ inl (p, (mem-set_erase q p set h).1 (m, ground arith), k)
      ]
      back (inr k) = inr k

  add_below-Covers :
      (r x : ℕ) (set : List ℕ) (o : Option ℕ)
      → IsFirst (t.super_regs r) set o
      → Covers t (add_below set r o) x ↔ CoversOr t set r x
  add_below-Covers r x set none f = Covers-set_insert r x set
  add_below-Covers r x set (some q) f = (inl, back)
    where
      back : CoversOr t set r x → Covers t set x
      back (inl c) = c
      back (inr (inl e)) =
          (q, f.1, inr (subst (λ z. mem z (t.sub_regs q) ≡ true) e (table.converse_super r q f.0)))
      back (inr (inr k)) = (q, f.1, inr (table.transitive q r x (table.converse_super r q f.0) k))

  add_above-Covers :
      (r x : ℕ) (set : List ℕ)
      → IsSorted set
      → (o : Option ℕ) → IsFirst (t.sub_regs r) set o
      → Covers t (add_above t set r o) x ↔ CoversOr t set r x
  add_above-Covers r x set h none f =
      add_below-Covers r x set _ (first_live_in-IsFirst (t.super_regs r) set)
  add_above-Covers r x set h (some q) f =
      let insert = Covers-set_insert r x (set_erase q set) in
      let replace = Covers-replace r q x set h f.0 in
      (λ c. replace.0 (insert.0 c), λ c. insert.1 (replace.1 c))

  -- The registers that the set stands for afterwards are those it stood for, the register, and the
  -- parts of the register.
  pub add_register_to_function_live_in_set-Covers :
      (set : List ℕ) (r x : ℕ)
      → IsSorted set
      → Covers t (add_register_to_function_live_in_set t set r) x ↔ CoversOr t set r x
  unfolding add_register_to_function_live_in_set
  add_register_to_function_live_in_set-Covers set r x h = elim (Bool-cases (mem r set)) [
    | inl e ↦ rw e (inl, back e)
    | inr n ↦ rw n (add_above-Covers r x set h _ (first_live_in-IsFirst (t.sub_regs r) set))
  ]
    where
      back : mem r set ≡ true → CoversOr t set r x → Covers t set x
      back e (inl c) = c
      back e (inr k) = (r, e, k)
