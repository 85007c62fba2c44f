-- ===== src/X86/Tracker/Defs.antt =====
-- What getGlobalReachingDefs returns.
use mathlib.Core.Option.{some-injective}
use llvm_mctoll.Base.{
  ℕ, zero, suc, ◌≡◌, ◌⊎◌, ◌↔◌, refl, sym, ap, subst, ◌∙◌, Bool, true, false, ◌||◌, Option, none,
  some, List, [], ◌∷◌, get_elem?, arith, inl, inr,
}
use llvm_mctoll.X86.Tracker.Arguments.{DefVal}
use llvm_mctoll.X86.Tracker.Search.{
  ReachingDefs, found, failed, out_of_fuel, search_from, same_def, and_then, search_preds,
  from_preds, from_local, get_global_reaching_defs, insert_def, sort_defs, unique_defs,
}
use llvm_mctoll.X86.Tracker.Lists.{has_def, same_def_refl, same_def_eq}
use llvm_mctoll.X86.Tracker.Reached.{Reached, Defines}
use llvm_mctoll.X86.Tracker.Whole.{search_from_iff, defs_of}

has_def-insert_def :
    (d e : ℕ × ℕ) (es : List (ℕ × ℕ)) → has_def d (insert_def e es) ≡ (same_def e d || has_def d es)
unfolding has_def insert_def
has_def-insert_def d e [] = refl
has_def-insert_def d e (x ∷ es) = ground (arith, has_def-insert_def d e es)

has_def-sort_defs : (d : ℕ × ℕ) (ds : List (ℕ × ℕ)) → has_def d (sort_defs ds) ≡ has_def d ds
unfolding has_def sort_defs
has_def-sort_defs d [] = refl
has_def-sort_defs d (x ∷ ds) =
    has_def-insert_def d x (sort_defs ds) ∙ ap (λ b. same_def x d || b) (has_def-sort_defs d ds)

has_def-unique_defs : (d : ℕ × ℕ) (ds : List (ℕ × ℕ)) → has_def d (unique_defs ds) ≡ has_def d ds
unfolding has_def unique_defs
has_def-unique_defs d [] = refl
has_def-unique_defs d (x ∷ []) = refl
has_def-unique_defs d (x ∷ y ∷ ds) = ground (arith, has_def-unique_defs d (y ∷ ds), same_def_eq x y)

some_eq : {A : Type 0} {x y : A} → some x ≡ some y → x ≡ y
some_eq e = some-injective _ _ e

has_def_empty : (d : ℕ × ℕ) → has_def d [] ≡ true → ⊥
unfolding has_def
has_def_empty d h = cc

module _ (pss : List (List ℕ)) (probe : ℕ → Option DefVal) where
  and_then-found :
      (o : ReachingDefs) (next : List (ℕ × ℕ) → Bool → ReachingDefs) (defs : List (ℕ × ℕ))
      (f : Bool)
      → and_then pss probe o next ≡ found defs f
      → (acc : List (ℕ × ℕ)) × (g : Bool) × (o ≡ found acc g) × (next acc g ≡ found defs f)
  and_then-found (found acc g) next defs f e = (acc, g, refl, e)
  and_then-found failed next defs f e = cc
  and_then-found out_of_fuel next defs f e = cc

  -- The definition reaches the end of the block: it is the block's own, or one further up.
  abbrev pub ReachesEnd : ℕ → ℕ × ℕ → Type 0
  ReachesEnd p d = (b : ℕ) × Reached pss probe p b × Defines pss probe b d

  own :
      (p : ℕ) (d : ℕ × ℕ)
      → ((b : ℕ) × Reached pss probe p b
          × (e : ℕ × ℕ) × Defines pss probe b e
          × (same_def e d ≡ true))
      → ReachesEnd p d
  own p d (b, r, e, k, s) = (b, r, subst (λ z. Defines pss probe b z) (same_def_eq e d s) k)

  as_same :
      (p : ℕ) (d : ℕ × ℕ)
      → ReachesEnd p d
      → (b : ℕ) × Reached pss probe p b
        × (e : ℕ × ℕ) × Defines pss probe b e
        × (same_def e d ≡ true)
  as_same p d (b, r, k) = (b, r, d, k, same_def_refl d)

  abbrev pub OfPreds : List ℕ → ℕ × ℕ → Type 0
  OfPreds ps d = (i : ℕ) × (p : ℕ) × (get_elem? ps i ≡ some p) × ReachesEnd p d

  preds_step :
      (q : ℕ) (ps : List ℕ) (acc mid defs : List (ℕ × ℕ)) (d : ℕ × ℕ)
      → ((has_def d mid ≡ true) ↔ (
          (has_def d acc ≡ true)
          ⊎ ((b : ℕ) × Reached pss probe q b
              × (c : ℕ × ℕ) × Defines pss probe b c
              × (same_def c d ≡ true))))
      → ((has_def d defs ≡ true) ↔ ((has_def d mid ≡ true) ⊎ OfPreds ps d))
      → (has_def d defs ≡ true) ↔ ((has_def d acc ≡ true) ⊎ OfPreds (q ∷ ps) d)
  preds_step q ps acc mid defs d first rest = (into, back)
    where
      at_head : (p : ℕ) → get_elem? (q ∷ ps) 0 ≡ some p → ReachesEnd p d → ReachesEnd q d
      at_head p k r = subst (λ z. ReachesEnd z d) (sym (some_eq k)) r

      into : has_def d defs ≡ true → (has_def d acc ≡ true) ⊎ OfPreds (q ∷ ps) d
      into h = elim (rest.0 h) [
        | inl k ↦ elim (first.0 k) [ inl old ↦ inl old | inr r ↦ inr (0, q, refl, own q d r) ]
        | inr (i, p, k, r) ↦ inr (suc i, p, k, r)
      ]

      back : (has_def d acc ≡ true) ⊎ OfPreds (q ∷ ps) d → has_def d defs ≡ true
      back (inl old) = rest.1 (inl (first.1 (inl old)))
      back (inr (zero, p, k, r)) = rest.1 (inl (first.1 (inr (as_same q d (at_head p k r)))))
      back (inr (suc i, p, k, r)) = rest.1 (inr (i, p, k, r))

  search_preds_iff :
      (ps : List ℕ) (acc defs : List (ℕ × ℕ)) (f g : Bool)
      → search_preds pss probe false ps acc f ≡ found defs g
      → (d : ℕ × ℕ) → (has_def d defs ≡ true) ↔ ((has_def d acc ≡ true) ⊎ OfPreds ps d)
  unfolding search_preds
  search_preds_iff [] acc defs f g e d =
      (λ h. inl (subst (λ z. has_def d z ≡ true) (sym (ap defs_of e)) h), back)
    where
      back : (has_def d acc ≡ true) ⊎ OfPreds [] d → has_def d defs ≡ true
      back (inl h) = subst (λ z. has_def d z ≡ true) (ap defs_of e) h
      back (inr (i, p, k, r)) = cc
  search_preds_iff (q ∷ ps) acc defs f g e d =
      let (mid, m, e1, e2) = and_then-found (search_from pss probe q acc) _ defs g e in
      preds_step q ps acc mid defs d (search_from_iff pss probe q acc mid m e1 d)
        (search_preds_iff ps mid defs m g e2 d)

  -- The block's own definition is not known.
  abbrev pub HasNoValue : Option DefVal → Type 0
  HasNoValue none = ⊥
  HasNoValue (some none) = Unit
  HasNoValue (some (some (n, zero))) = Unit
  HasNoValue (some (some (n, suc v))) = ⊥

  from_local-from_preds :
      (all_preds : Bool) (mbb : ℕ) (w : Option DefVal)
      → HasNoValue w
      → from_local pss probe all_preds mbb w ≡ from_preds pss probe all_preds (get_elem? pss mbb)
  from_local-from_preds all_preds mbb none h = absurd h
  from_local-from_preds all_preds mbb (some none) h = refl
  from_local-from_preds all_preds mbb (some (some (n, zero))) h = refl
  from_local-from_preds all_preds mbb (some (some (n, suc v))) h = absurd h

  -- Where a block has no definition whose value is known, what is returned is what reaches it: the
  -- definition of each block that a path against the control flow leads to from a predecessor,
  -- through blocks with no definition, and nothing else.
  pub get_global_reaching_defs_iff :
      (mbb : ℕ) (ps : List ℕ) (defs : List (ℕ × ℕ)) (f : Bool)
      → HasNoValue (probe mbb)
      → get_elem? pss mbb ≡ some ps
      → get_global_reaching_defs pss probe false mbb ≡ found defs f
      → (d : ℕ × ℕ) → (has_def d defs ≡ true) ↔ OfPreds ps d
  unfolding get_global_reaching_defs
  get_global_reaching_defs_iff mbb ps defs f h k e d = (into, back)
    where
      called : from_preds pss probe false (some ps) ≡ found defs f
      called =
          ap (from_preds pss probe false) (sym k)
          ∙ sym (from_local-from_preds false mbb (probe mbb) h)
          ∙ e

      step :
          (acc : List (ℕ × ℕ)) × (g : Bool) × (search_preds pss probe false ps [] true
            ≡ found acc g)
          × (found (unique_defs (sort_defs acc)) g ≡ found defs f)
      step = and_then-found (search_preds pss probe false ps [] true) _ defs f called

      same : has_def d step.0 ≡ has_def d defs
      same =
          sym (has_def-sort_defs d step.0)
          ∙ sym (has_def-unique_defs d (sort_defs step.0))
          ∙ ap (has_def d) (ap defs_of step.3)

      inner : (has_def d step.0 ≡ true) ↔ ((has_def d [] ≡ true) ⊎ OfPreds ps d)
      inner = search_preds_iff ps [] step.0 true step.1 step.2 d

      into : has_def d defs ≡ true → OfPreds ps d
      into m = elim (inner.0 (same ∙ m)) [ inl z ↦ absurd (has_def_empty d z) | inr r ↦ r ]

      back : OfPreds ps d → has_def d defs ≡ true
      back r = sym same ∙ inner.1 (inr r)
