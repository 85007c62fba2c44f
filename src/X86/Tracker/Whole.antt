-- ===== src/X86/Tracker/Whole.antt =====
-- What the inner loop of getGlobalReachingDefs finds from one predecessor, all of it.
use mathlib.Core.Option.{some-injective}
use llvm_mctoll.Base.{
  ℕ, zero, suc, ◌≡◌, ◌⊎◌, ◌↔◌, refl, sym, ap, subst, ◌∙◌, Bool, true, false, Option, none, some,
  List, [], ◌∷◌, ◌++◌, get_elem?, arith, inl, inr, Bool-cases, All-get_elem?,
}
use llvm_mctoll.X86.Instr.{mem}
use llvm_mctoll.X86.Reaching.{set_flag, no_flags}
use llvm_mctoll.X86.Tracker.Arguments.{DefVal}
use llvm_mctoll.X86.Tracker.Search.{
  ReachingDefs, found, failed, out_of_fuel, push_unvisited, Round, failed_round, go, go_up,
  after_probe, by_flag, round, on_round, search, search_from, same_def,
}
use llvm_mctoll.X86.Tracker.Lists.{
  has_def, same_def_refl, same_def_eq, has_def-append, push_keeps, push_new, push-All,
}
use llvm_mctoll.X86.Tracker.Reached.{
  Seen, Reached, here, further, Defines, Handled, defines, passes, Inv, Inv-drop, Inv-visit,
}

no_flags_false : {A : Type 0} (xs : List A) (b : ℕ) → get_elem? (no_flags xs) b ≡ some true → ⊥
unfolding no_flags
no_flags_false [] b h = cc
no_flags_false (x ∷ xs) zero h = cc
no_flags_false (x ∷ xs) (suc b) h = no_flags_false xs b h

none_not_some : {d : ℕ × ℕ} → some none ≡ some (some d) → ⊥
none_not_some e = cc

some-some : {c d : ℕ × ℕ} → some (some c) ≡ some (some d) → c ≡ d
some-some e = some-injective _ _ (some-injective _ _ e)

same_found :
    (c c' d : ℕ × ℕ) (defs : List (ℕ × ℕ))
    → c ≡ c'
    → same_def c d ≡ true
    → has_def c' defs ≡ true
    → has_def d defs ≡ true
same_found c c' d defs e s m =
    let same = same_def_eq c d s in subst (λ z. has_def z defs ≡ true) (sym e ∙ same) m

abbrev pub defs_of : ReachingDefs → List (ℕ × ℕ)
defs_of (found defs f) = defs
defs_of failed = []
defs_of out_of_fuel = []

module _ (pss : List (List ℕ)) (probe : ℕ → Option DefVal) (start : ℕ) (old : List (ℕ × ℕ)) where
  abbrev InvRound : Round → Type 0
  InvRound failed_round = Unit
  InvRound (go v st acc f) = Inv pss probe start old v st acc

  go_up-Inv :
      (v : List Bool) (b : ℕ) (rest : List ℕ) (acc : List (ℕ × ℕ)) (f : Bool)
      → Inv pss probe start old v (b ∷ rest) acc
      → get_elem? v b ≡ some false
      → probe b ≡ some none
      → (o : Option (List ℕ)) → get_elem? pss b ≡ o
      → InvRound (go_up pss probe (set_flag v b) rest acc f o)
  go_up-Inv v b rest acc f h e p none k = tt
  go_up-Inv v b rest acc f h e p (some ps) k =
      Inv-visit pss probe start old v b rest (push_unvisited (set_flag v b) ps rest) acc acc h e
        (λ q m. push_keeps (set_flag v b) ps rest q m) (λ d m. m)
        (push-All (Reached pss probe start) (set_flag v b) ps rest
          (All-get_elem? (Reached pss probe start) ps (λ i q g. further b ps i q h.stacked.0 p k g))
          h.stacked.1)
        (λ d m. inl m)
        (passes p (λ ps' i q g g'.
          let same = some-injective _ _ (sym g ∙ k) in
          push_new (set_flag v b) ps rest i q (subst (λ z. get_elem? z i ≡ some q) same g')))

  after_probe-Inv :
      (v : List Bool) (b : ℕ) (rest : List ℕ) (acc : List (ℕ × ℕ)) (f : Bool)
      → Inv pss probe start old v (b ∷ rest) acc
      → get_elem? v b ≡ some false
      → (w : Option DefVal) → probe b ≡ w
      → InvRound (after_probe pss probe (set_flag v b) b rest acc f w)
  after_probe-Inv v b rest acc f h e none p = tt
  after_probe-Inv v b rest acc f h e (some (some d)) p =
      Inv-visit pss probe start old v b rest rest acc (acc ++ d ∷ []) h e (λ q m. m)
        (λ c m. rw (has_def-append c d acc) (ground arith)) h.stacked.1
        (λ c m.
          let split = sym (has_def-append c d acc) ∙ m in
          elim (Bool-cases (has_def c acc)) [
            | inl t ↦ inl t
            | inr n ↦ inr (b, h.stacked.0, d, p, ground arith)
          ])
        (defines d p (rw (has_def-append d d acc) (ground (arith, same_def_refl d))))
  after_probe-Inv v b rest acc f h e (some none) p =
      go_up-Inv v b rest acc f h e p (get_elem? pss b) refl

  by_flag-Inv :
      (v : List Bool) (b : ℕ) (rest : List ℕ) (acc : List (ℕ × ℕ)) (f : Bool)
      → Inv pss probe start old v (b ∷ rest) acc
      → (o : Option Bool) → get_elem? v b ≡ o
      → InvRound (by_flag pss probe v b rest acc f o)
  by_flag-Inv v b rest acc f h none e = tt
  by_flag-Inv v b rest acc f h (some true) e = Inv-drop pss probe start old v b rest acc h e
  by_flag-Inv v b rest acc f h (some false) e = after_probe-Inv v b rest acc f h e (probe b) refl

  on_round-Inv :
      (r : Round) (next : List Bool → List ℕ → List (ℕ × ℕ) → Bool → ReachingDefs)
      → (P : ReachingDefs → Type 0) → InvRound r
      → P failed
      → ((v : List Bool) (st : List ℕ) (acc : List (ℕ × ℕ)) (f : Bool)
          → Inv pss probe start old v st acc
          → P (next v st acc f))
      → P (on_round pss probe r next)
  on_round-Inv failed_round next P h z k = z
  on_round-Inv (go v st acc f) next P h z k = k v st acc f h

  -- Where the loop returns, the invariant holds with no block left.
  abbrev AtEnd : ReachingDefs → Type 0
  AtEnd o =
      (defs : List (ℕ × ℕ)) (f : Bool)
      → o ≡ found defs f
      → (v : List Bool) × Inv pss probe start old v [] defs

  search-AtEnd :
      (fuel : ℕ) (v : List Bool) (st : List ℕ) (acc : List (ℕ × ℕ)) (f : Bool)
      → Inv pss probe start old v st acc
      → AtEnd (search pss probe fuel v st acc f)
  unfolding search round
  search-AtEnd zero v [] acc f h =
      λ defs g e. (v, subst (Inv pss probe start old v []) (ap defs_of e) h)
  search-AtEnd (suc fuel) v [] acc f h =
      λ defs g e. (v, subst (Inv pss probe start old v []) (ap defs_of e) h)
  search-AtEnd zero v (b ∷ rest) acc f h = λ defs g e. cc
  search-AtEnd (suc fuel) v (b ∷ rest) acc f h =
      on_round-Inv _ _ AtEnd (by_flag-Inv v b rest acc f h (get_elem? v b) refl) (λ defs g e. cc)
        (λ v' st acc' f' h'. search-AtEnd fuel v' st acc' f' h')

  Inv-start : Inv pss probe start old (no_flags pss) (start ∷ []) old
  unfolding mem
  Inv-start = record {
    stacked = (here, tt);
    sound = λ d k. inl k;
    keeps = λ d k. k;
    closed = λ b e. absurd (no_flags_false pss b e);
    started = inr (ground arith);
  }

  nothing_left : (v : List Bool) (q : ℕ) → Seen v [] q → get_elem? v q ≡ some true
  unfolding mem
  nothing_left v q (inl e) = e
  nothing_left v q (inr m) = cc

  -- Every block that is reached has been visited.
  Reached-visited :
      (v : List Bool) (acc : List (ℕ × ℕ)) (b : ℕ)
      → Inv pss probe start old v [] acc
      → Reached pss probe start b
      → get_elem? v b ≡ some true
  Reached-visited v acc b h here = nothing_left v start h.started
  Reached-visited v acc q h (further b ps i p r e g g') =
      by_case (h.closed b (Reached-visited v acc b h r))
    where
      by_case : Handled pss probe v [] acc b → get_elem? v p ≡ some true
      by_case (defines d k m) = absurd (none_not_some (sym e ∙ k))
      by_case (passes k m) = nothing_left v p (m ps i p g g')

  -- The definitions are the old ones and those of the blocks that are reached.
  pub search_from_iff :
      (defs : List (ℕ × ℕ)) (f : Bool)
      → search_from pss probe start old ≡ found defs f
      → (d : ℕ × ℕ)
      → (has_def d defs ≡ true) ↔ (
          (has_def d old ≡ true)
          ⊎ ((b : ℕ) × Reached pss probe start b
              × (e : ℕ × ℕ) × Defines pss probe b e
              × (same_def e d ≡ true)))
  search_from_iff defs f e d = (inv.sound d, back)
    where
      at_end : (v : List Bool) × Inv pss probe start old v [] defs
      at_end = search-AtEnd _ (no_flags pss) (start ∷ []) old false Inv-start defs f e

      inv : Inv pss probe start old at_end.0 [] defs
      inv = at_end.1

      from_handled :
          (b : ℕ) (c : ℕ × ℕ)
          → Defines pss probe b c
          → same_def c d ≡ true
          → Handled pss probe at_end.0 [] defs b
          → has_def d defs ≡ true
      from_handled b c k s (defines c' k' m) = same_found c c' d defs (some-some (sym k ∙ k')) s m
      from_handled b c k s (passes k' m) = absurd (none_not_some (sym k' ∙ k))

      back :
          (has_def d old ≡ true)
            ⊎ ((b : ℕ) × Reached pss probe start b
                × (c : ℕ × ℕ) × Defines pss probe b c
                × (same_def c d ≡ true))
          → has_def d defs ≡ true
      back (inl o) = inv.keeps d o
      back (inr (b, r, c, k, s)) =
          from_handled b c k s (inv.closed b (Reached-visited at_end.0 defs b inv r))
