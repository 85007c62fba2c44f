-- ===== src/Arm/Prolog/Patterns.antt =====
-- The patterns that the tests of eliminateProlog and eliminateEpilog stand for.
use llvm_mctoll.Base.{
  ℕ, suc, if◌then◌else◌, Bool, true, false, ◌≡◌, ◌↔◌, ◌⊎◌, inl, inr, refl, sym, ap, ◌∙◌, Option,
  none, some, List, [], ◌∷◌, arith, >>=_some, ◌>>=◌,
}
use mathlib.Core.Bool.{true≢false}
use mathlib.Core.Option.{some-injective}
use llvm_mctoll.Arm.Opcode.{
  Opcode, is_mov_r, is_add_ri, is_sub_ri, is_ldr_post_imm, is_str_pre_imm, mov_r, add_ri, sub_ri,
  ldr_post_imm, str_pre_imm,
}
use llvm_mctoll.Arm.Target.{
  Register, r11, r12, same_register, same_register_iff, Operand, reg, imm, frame_index, metadata,
  MachineInstr, Target,
}
use llvm_mctoll.Arm.Builder.{get_operand, get_reg}
use llvm_mctoll.Arm.Prolog.Conditions.{
  is_register, register_at, get_reg_at, ◌and_then◌, count_tests, prolog_tests, epilog_tests,
  prolog_mov, prolog_store, prolog_add, prolog_sub, prolog_sub_r12, epilog_load, epilog_ldr_post,
  epilog_str_pre, epilog_add, epilog_sub, epilog_mov,
}

abbrev pub RegisterAt : ℕ → Register → MachineInstr → Type 0
RegisterAt i r mi = (d : Bool) × (get_operand mi i ≡ some (reg r d))

is_register-eq :
    (r : Register) (mo : Operand) → is_register r mo ≡ true → (d : Bool) × (mo ≡ reg r d)
is_register-eq r (reg q d) h = (d, ap (λ x. reg x d) ((same_register_iff q r).0 h))
is_register-eq r (imm z) h = cc
is_register-eq r (frame_index z) h = cc
is_register-eq r (metadata z) h = cc

is_register_refl : (r : Register) (d : Bool) → is_register r (reg r d) ≡ true
is_register_refl r d = (same_register_iff r r).1 refl

register_at_iff :
    (i : ℕ) (r : Register) (mi : MachineInstr)
    → (register_at i r mi ≡ some true) ↔ RegisterAt i r mi
unfolding register_at ◌>>=◌
register_at_iff i r mi = (
  λ e.
      (let got = >>=_some _ _ _ e in
        let is = is_register-eq r got.0 (some-injective _ _ got.2) in (is.0, got.1 ∙ ap some is.1)),
  λ (d, e). rw (e, is_register_refl r d) refl,
)

get_reg-eq :
    (r q : Register) (mo : Operand)
    → get_reg mo ≡ some q
    → same_register q r ≡ true
    → (d : Bool) × (mo ≡ reg r d)
get_reg-eq r q (reg p d) e h =
    (d, ap (λ x. reg x d) (some-injective _ _ e ∙ (same_register_iff q r).0 h))
get_reg-eq r q (imm z) e h = cc
get_reg-eq r q (frame_index z) e h = cc
get_reg-eq r q (metadata z) e h = cc

get_reg_at_iff :
    (i : ℕ) (r : Register) (mi : MachineInstr) → (get_reg_at i r mi ≡ some true) ↔ RegisterAt i r mi
unfolding get_reg_at ◌>>=◌
get_reg_at_iff i r mi = (
  λ e.
      (let got = >>=_some _ _ _ e in
        let reg_ = >>=_some _ _ _ got.2 in
        let is = get_reg-eq r reg_.0 got.0 reg_.1 (some-injective _ _ reg_.2) in
        (is.0, got.1 ∙ ap some is.1)),
  λ (d, e). rw (e, is_register_refl r d) refl,
)

and_then_iff :
    (p q : Option Bool) → (p and_then q ≡ some true) ↔ ((p ≡ some true) × (q ≡ some true))
unfolding ◌and_then◌
and_then_iff none q = (λ e. cc, λ (a, b). cc)
and_then_iff (some true) q = (λ e. (refl, e), λ (a, b). b)
and_then_iff (some false) q = (λ e. cc, λ (a, b). cc)

is_mov_r_iff : (o : Opcode) → (is_mov_r o ≡ true) ↔ (o ≡ mov_r)
is_mov_r_iff o = ground arith

abbrev pub AnyTest : List (MachineInstr → Option Bool) → MachineInstr → Type 0
AnyTest [] mi = ⊥
AnyTest (f ∷ fs) mi = (f mi ≡ some true) ⊎ AnyTest fs mi

uncounted : (b : Bool) (n : ℕ) → (if b then suc n else n) ≡ 0 → (b ≡ false) × (n ≡ 0)
uncounted b n e = ground arith

counted : (b : Bool) (n m : ℕ) → (if b then suc n else n) ≡ suc m → (b ≡ true) ⊎ (n ≡ suc m)
counted b n m e = ground arith

pub count_tests-zero :
    (fs : List (MachineInstr → Option Bool)) (mi : MachineInstr)
    → count_tests fs mi ≡ some 0
    → ¬ AnyTest fs mi
unfolding count_tests
count_tests-zero [] mi e h = h
count_tests-zero (f ∷ fs) mi e h =
    let one = >>=_some _ _ _ e in
    let rest = >>=_some _ _ _ one.2 in
    let split = uncounted one.0 rest.0 (some-injective _ _ rest.2) in
    elim h [
      | inl t ↦ true≢false (some-injective _ _ (sym t ∙ one.1) ∙ split.0)
      | inr u ↦ count_tests-zero fs mi (rest.1 ∙ ap some split.1) u
    ]

zero-suc : (n : ℕ) → 0 ≡ suc n → ⊥
zero-suc n e = omega arith

pub count_tests-suc :
    (fs : List (MachineInstr → Option Bool)) (mi : MachineInstr) (n : ℕ)
    → count_tests fs mi ≡ some (suc n)
    → AnyTest fs mi
unfolding count_tests
count_tests-suc [] mi n e = absurd (zero-suc n (some-injective _ _ e))
count_tests-suc (f ∷ fs) mi n e =
    let one = >>=_some _ _ _ e in
    let rest = >>=_some _ _ _ one.2 in
    elim (counted one.0 rest.0 n (some-injective _ _ rest.2)) [
      | inl t ↦ inl (one.1 ∙ ap some t)
      | inr u ↦ inr (count_tests-suc fs mi n (rest.1 ∙ ap some u))
    ]

one_iff :
    (o : Bool) (p : Option Bool) → (some o and_then p ≡ some true) ↔ ((o ≡ true) × (p ≡ some true))
one_iff o p = (
  λ e. (let h = (and_then_iff (some o) p).0 e in (some-injective _ _ h.0, h.1)),
  λ (a, b). (and_then_iff (some o) p).1 (ap some a, b),
)

two_iff :
    (o : Bool) (p q : Option Bool)
    → (some o and_then p and_then q ≡ some true) ↔ ((o ≡ true) × (p ≡ some true) × (q ≡ some true))
two_iff o p q = (
  λ e.
      (let h = (one_iff o (p and_then q)).0 e in
        let k = (and_then_iff p q).0 h.1 in (h.0, k.0, k.1)),
  λ (a, b, c). (one_iff o (p and_then q)).1 (a, (and_then_iff p q).1 (b, c)),
)

is_add_ri_iff : (o : Opcode) → (is_add_ri o ≡ true) ↔ (o ≡ add_ri)
is_add_ri_iff o = ground arith

is_sub_ri_iff : (o : Opcode) → (is_sub_ri o ≡ true) ↔ (o ≡ sub_ri)
is_sub_ri_iff o = ground arith

is_ldr_post_imm_iff : (o : Opcode) → (is_ldr_post_imm o ≡ true) ↔ (o ≡ ldr_post_imm)
is_ldr_post_imm_iff o = ground arith

is_str_pre_imm_iff : (o : Opcode) → (is_str_pre_imm o ≡ true) ↔ (o ≡ str_pre_imm)
is_str_pre_imm_iff o = ground arith

module _ (t : Target) (fp : Register) where
  -- An instruction of the prolog: mov r11, fp; a store of or through fp as its first operand;
  -- add r11, fp; sub fp, fp; sub r11, r12. Here fp is the frame register.
  pub data IsProlog (mi : MachineInstr) : Type 0 where
    moves : mi.opcode ≡ mov_r → RegisterAt 0 r11 mi → RegisterAt 1 fp mi → IsProlog mi
    stores : t.may_store mi.opcode ≡ true → RegisterAt 0 fp mi → IsProlog mi
    adds : mi.opcode ≡ add_ri → RegisterAt 0 r11 mi → RegisterAt 1 fp mi → IsProlog mi
    subtracts : mi.opcode ≡ sub_ri → RegisterAt 0 fp mi → RegisterAt 1 fp mi → IsProlog mi
    subtracts_r12 : mi.opcode ≡ sub_ri → RegisterAt 0 r11 mi → RegisterAt 1 r12 mi → IsProlog mi

  -- An instruction of the epilog: a load into or through fp as its first operand; ldr with fp as its
  -- second operand and the offset added behind; str with the offset added before, add or sub with fp
  -- as the first operand; mov fp, r11.
  pub data IsEpilog (mi : MachineInstr) : Type 0 where
    loads : t.may_load mi.opcode ≡ true → RegisterAt 0 fp mi → IsEpilog mi
    loads_behind : mi.opcode ≡ ldr_post_imm → RegisterAt 1 fp mi → IsEpilog mi
    stores_before : mi.opcode ≡ str_pre_imm → RegisterAt 0 fp mi → IsEpilog mi
    adds : mi.opcode ≡ add_ri → RegisterAt 0 fp mi → IsEpilog mi
    subtracts : mi.opcode ≡ sub_ri → RegisterAt 0 fp mi → IsEpilog mi
    moves : mi.opcode ≡ mov_r → RegisterAt 1 r11 mi → RegisterAt 0 fp mi → IsEpilog mi

  module _ (mi : MachineInstr) where
    abbrev at : (i : ℕ) (r : Register) → (register_at i r mi ≡ some true) ↔ RegisterAt i r mi
    at i r = register_at_iff i r mi

    abbrev got : (i : ℕ) (r : Register) → (get_reg_at i r mi ≡ some true) ↔ RegisterAt i r mi
    got i r = get_reg_at_iff i r mi

    pub AnyTest-IsProlog : AnyTest (prolog_tests t fp) mi → IsProlog mi
    unfolding prolog_mov prolog_store prolog_add prolog_sub prolog_sub_r12
    AnyTest-IsProlog (inl e) =
        let h = (two_iff _ _ _).0 e in
        IsProlog.moves ((is_mov_r_iff _).0 h.0) ((at 0 r11).0 h.1) ((at 1 fp).0 h.2)
    AnyTest-IsProlog (inr (inl e)) = let h = (one_iff _ _).0 e in stores h.0 ((at 0 fp).0 h.1)
    AnyTest-IsProlog (inr (inr (inl e))) =
        let h = (two_iff _ _ _).0 e in
        IsProlog.adds ((is_add_ri_iff _).0 h.0) ((got 0 r11).0 h.1) ((got 1 fp).0 h.2)
    AnyTest-IsProlog (inr (inr (inr (inl e)))) =
        let h = (two_iff _ _ _).0 e in
        IsProlog.subtracts ((is_sub_ri_iff _).0 h.0) ((got 0 fp).0 h.1) ((got 1 fp).0 h.2)
    AnyTest-IsProlog (inr (inr (inr (inr (inl e))))) =
        let h = (two_iff _ _ _).0 e in
        subtracts_r12 ((is_sub_ri_iff _).0 h.0) ((got 0 r11).0 h.1) ((got 1 r12).0 h.2)
    AnyTest-IsProlog (inr (inr (inr (inr (inr x))))) = elim x [ ]

    pub IsProlog-AnyTest : IsProlog mi → AnyTest (prolog_tests t fp) mi
    unfolding prolog_mov prolog_store prolog_add prolog_sub prolog_sub_r12
    IsProlog-AnyTest (IsProlog.moves o a b) =
        inl ((two_iff _ _ _).1 ((is_mov_r_iff _).1 o, (at 0 r11).1 a, (at 1 fp).1 b))
    IsProlog-AnyTest (stores o a) = inr (inl ((one_iff _ _).1 (o, (at 0 fp).1 a)))
    IsProlog-AnyTest (IsProlog.adds o a b) =
        inr (inr (inl ((two_iff _ _ _).1 ((is_add_ri_iff _).1 o, (got 0 r11).1 a, (got 1 fp).1 b))))
    IsProlog-AnyTest (IsProlog.subtracts o a b) = inr (
        inr (inr (inl ((two_iff _ _ _).1 ((is_sub_ri_iff _).1 o, (got 0 fp).1 a, (got 1 fp).1 b)))))
    IsProlog-AnyTest (subtracts_r12 o a b) = inr (
        inr (
          inr (
            inr
              (inl ((two_iff _ _ _).1 ((is_sub_ri_iff _).1 o, (got 0 r11).1 a, (got 1 r12).1 b))))))

    pub AnyTest-IsEpilog : AnyTest (epilog_tests t fp) mi → IsEpilog mi
    unfolding epilog_load epilog_ldr_post epilog_str_pre epilog_add epilog_sub epilog_mov
    AnyTest-IsEpilog (inl e) = let h = (one_iff _ _).0 e in loads h.0 ((at 0 fp).0 h.1)
    AnyTest-IsEpilog (inr (inl e)) =
        let h = (one_iff _ _).0 e in loads_behind ((is_ldr_post_imm_iff _).0 h.0) ((got 1 fp).0 h.1)
    AnyTest-IsEpilog (inr (inr (inl e))) =
        let h = (one_iff _ _).0 e in stores_before ((is_str_pre_imm_iff _).0 h.0) ((got 0 fp).0 h.1)
    AnyTest-IsEpilog (inr (inr (inr (inl e)))) =
        let h = (one_iff _ _).0 e in IsEpilog.adds ((is_add_ri_iff _).0 h.0) ((at 0 fp).0 h.1)
    AnyTest-IsEpilog (inr (inr (inr (inr (inl e))))) =
        let h = (one_iff _ _).0 e in IsEpilog.subtracts ((is_sub_ri_iff _).0 h.0) ((got 0 fp).0 h.1)
    AnyTest-IsEpilog (inr (inr (inr (inr (inr (inl e)))))) =
        let h = (two_iff _ _ _).0 e in
        IsEpilog.moves ((is_mov_r_iff _).0 h.0) ((at 1 r11).0 h.1) ((at 0 fp).0 h.2)
    AnyTest-IsEpilog (inr (inr (inr (inr (inr (inr x)))))) = elim x [ ]

    pub epilog_load_iff :
        (epilog_load t fp mi ≡ some true) ↔ ((t.may_load mi.opcode ≡ true) × RegisterAt 0 fp mi)
    unfolding epilog_load
    epilog_load_iff = (
      λ e. (let h = (one_iff _ _).0 e in (h.0, (at 0 fp).0 h.1)),
      λ (o, a). (one_iff _ _).1 (o, (at 0 fp).1 a),
    )

    pub IsEpilog-AnyTest : IsEpilog mi → AnyTest (epilog_tests t fp) mi
    unfolding epilog_load epilog_ldr_post epilog_str_pre epilog_add epilog_sub epilog_mov
    IsEpilog-AnyTest (loads o a) = inl ((one_iff _ _).1 (o, (at 0 fp).1 a))
    IsEpilog-AnyTest (loads_behind o a) =
        inr (inl ((one_iff _ _).1 ((is_ldr_post_imm_iff _).1 o, (got 1 fp).1 a)))
    IsEpilog-AnyTest (stores_before o a) =
        inr (inr (inl ((one_iff _ _).1 ((is_str_pre_imm_iff _).1 o, (got 0 fp).1 a))))
    IsEpilog-AnyTest (IsEpilog.adds o a) =
        inr (inr (inr (inl ((one_iff _ _).1 ((is_add_ri_iff _).1 o, (at 0 fp).1 a)))))
    IsEpilog-AnyTest (IsEpilog.subtracts o a) =
        inr (inr (inr (inr (inl ((one_iff _ _).1 ((is_sub_ri_iff _).1 o, (got 0 fp).1 a))))))
    IsEpilog-AnyTest (IsEpilog.moves o a b) = inr (
        inr (
          inr (
            inr (
              inr
                (inl ((two_iff _ _ _).1 ((is_mov_r_iff _).1 o, (at 1 r11).1 a, (at 0 fp).1 b)))))))
