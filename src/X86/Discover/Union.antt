-- ===== src/X86/Discover/Union.antt =====
-- The definitions that reach a block from its predecessors.
use llvm_mctoll.Base.{
  ℕ, ◌≡◌, ◌⊎◌, refl, sym, ap, ◌∙◌, true, false, Option, none, some, List, [], ◌∷◌, ◌==◌, ==_iff,
  ltb, if◌then◌else◌, arith, inl, inr, Bool-cases,
}
use llvm_mctoll.X86.Discover.{
  find_key, put_key, keep_larger, add_defs, defs_or_none, union_of_preds,
}

-- The larger of two sizes, where there are any.
abbrev pub larger_size : Option ℕ → Option ℕ → Option ℕ
larger_size none o = o
larger_size (some n) none = some n
larger_size (some n) (some k) = if ltb n k then some k else some n

-- The largest size that a visited predecessor defines a register with.
abbrev pub largest : List (ℕ × List (ℕ × ℕ)) → List ℕ → ℕ → Option ℕ
largest per_mbb [] r = none
largest per_mbb (p ∷ ps) r =
    larger_size (find_key r (defs_or_none (find_key p per_mbb))) (largest per_mbb ps r)

-- A map has each key once.
abbrev pub HasKeysOnce : {A : Type 0} → List (ℕ × A) → Type 0
HasKeysOnce [] = Unit
HasKeysOnce ((k, v) ∷ m) = (find_key k m ≡ none) × HasKeysOnce m

pub find_key-put_key :
    {A : Type 0} (r q : ℕ) (v : A) (m : List (ℕ × A))
    → find_key q (put_key r v m) ≡ (if r == q then some v else find_key q m)
unfolding find_key put_key
find_key-put_key r q v [] = refl
find_key-put_key r q v ((k, w) ∷ m) = ground (arith, find_key-put_key r q v m)

larger_none : (a : Option ℕ) → larger_size a none ≡ a
larger_none none = refl
larger_none (some n) = refl

larger_size_assoc :
    (a b c : Option ℕ) → larger_size (larger_size a b) c ≡ larger_size a (larger_size b c)
larger_size_assoc a b c = ground arith

keep_larger_by :
    (r size q : ℕ) (defs : List (ℕ × ℕ)) (o : Option ℕ)
    → find_key r defs ≡ o
    → find_key q (keep_larger r size defs o)
      ≡ larger_size (find_key q defs) (if r == q then some size else none)
keep_larger_by r size q defs none e = elim (Bool-cases (r == q)) [
  | inl same ↦
      let at_q = ap (λ k. find_key k defs) (sym ((==_iff r q).0 same)) ∙ e in
      rw (find_key-put_key r q size defs, same, at_q) refl
  | inr other ↦ rw (find_key-put_key r q size defs, other) (sym (larger_none (find_key q defs)))
]
keep_larger_by r size q defs (some n) e = elim (Bool-cases (r == q)) [
  | inl same ↦
      let at_q = ap (λ k. find_key k defs) (sym ((==_iff r q).0 same)) ∙ e in
      elim (Bool-cases (ltb n size)) [
        | inl l ↦ rw (l, find_key-put_key r q size defs, same, at_q, l) refl
        | inr l ↦ rw (l, same, at_q, l) refl
      ]
  | inr other ↦ elim (Bool-cases (ltb n size)) [
    | inl l ↦ rw (l, find_key-put_key r q size defs, other) (sym (larger_none (find_key q defs)))
    | inr l ↦ rw (l, other) (sym (larger_none (find_key q defs)))
  ]
]

find_key-add_defs :
    (pred defs : List (ℕ × ℕ)) (q : ℕ)
    → HasKeysOnce pred
    → find_key q (add_defs pred defs) ≡ larger_size (find_key q defs) (find_key q pred)
unfolding add_defs find_key
find_key-add_defs [] defs q h = sym (larger_none (find_key q defs))
find_key-add_defs ((r, size) ∷ pred) defs q h =
    find_key-add_defs pred (keep_larger r size defs (find_key r defs)) q h.1
    ∙ ap (λ o. larger_size o (find_key q pred)) (keep_larger_by r size q defs _ refl)
    ∙ larger_size_assoc (find_key q defs) (if r == q then some size else none) (find_key q pred)
    ∙ ap (larger_size (find_key q defs)) (head_or_tail (Bool-cases (r == q)))
  where
    head_or_tail :
        ((r == q) ≡ true) ⊎ ((r == q) ≡ false)
        → larger_size (if r == q then some size else none) (find_key q pred)
          ≡ (if r == q then some size else find_key q pred)
    head_or_tail (inl same) =
        let absent = ap (λ k. find_key k pred) (sym ((==_iff r q).0 same)) ∙ h.0 in
        rw (same, absent) refl
    head_or_tail (inr other) = rw other refl

-- Every map of a visited block has each key once.
abbrev pub AllOnce : List (ℕ × List (ℕ × ℕ)) → Type 0
AllOnce per_mbb = (p : ℕ) → HasKeysOnce (defs_or_none (find_key p per_mbb))

union_of_preds-larger :
    (per_mbb : List (ℕ × List (ℕ × ℕ))) (preds : List ℕ) (defs : List (ℕ × ℕ)) (q : ℕ)
    → AllOnce per_mbb
    → find_key q (union_of_preds per_mbb preds defs)
      ≡ larger_size (find_key q defs) (largest per_mbb preds q)
unfolding union_of_preds
union_of_preds-larger per_mbb [] defs q h = sym (larger_none (find_key q defs))
union_of_preds-larger per_mbb (p ∷ ps) defs q h =
    let pred = defs_or_none (find_key p per_mbb) in
    union_of_preds-larger per_mbb ps (add_defs pred defs) q h
    ∙ ap (λ o. larger_size o (largest per_mbb ps q)) (find_key-add_defs pred defs q (h p))
    ∙ larger_size_assoc (find_key q defs) (find_key q pred) (largest per_mbb ps q)

-- A register is defined on entry to a block if a visited predecessor defines it, with the largest
-- of their sizes.
pub union_of_preds-largest :
    (per_mbb : List (ℕ × List (ℕ × ℕ))) (preds : List ℕ) (q : ℕ)
    → AllOnce per_mbb
    → find_key q (union_of_preds per_mbb preds []) ≡ largest per_mbb preds q
unfolding find_key
union_of_preds-largest per_mbb preds q h = union_of_preds-larger per_mbb preds [] q h
