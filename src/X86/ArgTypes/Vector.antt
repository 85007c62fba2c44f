-- ===== src/X86/ArgTypes/Vector.antt =====
-- The registers of a set, each of which has a number of its own.
use llvm_mctoll.Base.{
  ℕ, ◌≡◌, ◌⊎◌, refl, sym, subst, Bool, true, false, some, List, [], ◌∷◌, ◌==◌, ==_iff, arith, inl,
  inr, Bool-cases, ◌>>=◌,
}
use llvm_mctoll.X86.Instr.{mem}
use llvm_mctoll.X86.Types.{X86Target}
use llvm_mctoll.X86.LiveIns.Sorted.{IsSorted, IsSorted-tail, Above, Above-trans}
use llvm_mctoll.X86.LiveIns.Antichain.{IsAntichain}
use llvm_mctoll.X86.ArgTypes.{get_argument_number, ArgMaps, find_args}
use llvm_mctoll.X86.ArgTypes.Alike.{HasParts, IsArg-related, get_argument_number-IsArg, sse_alike}
use llvm_mctoll.X86.ArgTypes.Found.{Numbered, Holds, IsNew, With, add_arg-Holds}

-- The registers of P and those of the list.
abbrev pub WithAll : (ℕ → Type 0) → List ℕ → ℕ → Type 0
WithAll P [] = P
WithAll P (r ∷ rs) = WithAll (With P r) rs

abbrev pub Fresh : X86Target → (ℕ → Type 0) → List ℕ → Type 0
Fresh t P [] = Unit
Fresh t P (r ∷ rs) = IsNew t P r × Fresh t (With P r) rs

WithAll-old : (P : ℕ → Type 0) (rs : List ℕ) (q : ℕ) → P q → WithAll P rs q
WithAll-old P [] q h = h
WithAll-old P (r ∷ rs) q h = WithAll-old (With P r) rs q (inl h)

pub WithAll-mem : (P : ℕ → Type 0) (rs : List ℕ) (q : ℕ) → mem q rs ≡ true → WithAll P rs q
unfolding mem
WithAll-mem P [] q h = cc
WithAll-mem P (r ∷ rs) q h = elim (Bool-cases (r == q)) [
  | inl e ↦ WithAll-old (With P r) rs q (inr (sym ((==_iff r q).0 e)))
  | inr n ↦ WithAll-mem (With P r) rs q (rw n at h)
]

pub mem-WithAll : (P : ℕ → Type 0) (rs : List ℕ) (q : ℕ) → WithAll P rs q → P q ⊎ (mem q rs ≡ true)
unfolding mem
mem-WithAll P [] q h = inl h
mem-WithAll P (r ∷ rs) q h = elim (mem-WithAll (With P r) rs q h) [
  | inl (inl p) ↦ inl p
  | inl (inr e) ↦ inr (ground arith)
  | inr m ↦ inr (ground arith)
]

pub find_args-Holds :
    (t : X86Target) (P : ℕ → Type 0) (rs : List ℕ) (s : ArgMaps)
    → Holds t P s
    → Fresh t P rs
    → (s' : ArgMaps) × (find_args t rs s ≡ some s') × Holds t (WithAll P rs) s'
unfolding find_args ◌>>=◌
find_args-Holds t P [] s h f = (s, refl, h)
find_args-Holds t P (r ∷ rs) s h f =
    let (s', e, h') = add_arg-Holds t P r s h f.0 (get_argument_number t r) refl in
    let (s'', e', h'') = find_args-Holds t (With P r) rs s' h' f.1 in (s'', rw e e', h'')

module _ (t : X86Target) (parts : HasParts t) (set : List ℕ) (h : IsAntichain t set) where
  -- Two registers of the set that have the same number are the same.
  alike :
      (r q k : ℕ) (gp : Bool)
      → mem r set ≡ true
      → mem q set ≡ true
      → Numbered t r gp k
      → Numbered t q gp k
      → r ≡ q
  alike r q k true hr hq mr mq =
      elim (IsArg-related t r q k parts (get_argument_number-IsArg t r k mr.0 mr.1)
        (get_argument_number-IsArg t q k mq.0 mq.1)) [
          | inl e ↦ e
          | inr (inl p) ↦ absurd (h.apart r q hr hq p)
          | inr (inr p) ↦ absurd (h.apart q r hq hr p)
        ]
  alike r q k false hr hq mr mq = sse_alike t r q k mr.0 mq.0 mr.1 mq.1

  pub Fresh-sorted :
      (P : ℕ → Type 0) (rs : List ℕ)
      → IsSorted rs
      → ((q : ℕ) → mem q rs ≡ true → mem q set ≡ true)
      → ((q : ℕ) → P q → (mem q set ≡ true) × Above q rs)
      → Fresh t P rs
  unfolding mem
  Fresh-sorted P [] s inside old = tt
  Fresh-sorted P (r ∷ rs) s inside old = (
    new,
    Fresh-sorted (With P r) rs (IsSorted-tail r rs s) (λ q m. inside q (ground arith)) with_r,
  )
    where
      r_inside : mem r set ≡ true
      r_inside = inside r (ground arith)

      new : IsNew t P r
      new q k gp p mr mq =
          let (q_inside, below) = old q p in
          let same = alike r q k gp r_inside q_inside mr mq in absurd (omega (arith, below.0, same))

      with_r : (q : ℕ) → With P r q → (mem q set ≡ true) × Above q rs
      with_r q (inl p) = ((old q p).0, Above-trans q r rs (old q p).1.0 s)
      with_r q (inr e) =
          (subst (λ z. mem z set ≡ true) (sym e) r_inside, subst (λ z. Above z rs) (sym e) s)
