-- ===== src/X86/Tracker/Reached.antt =====
-- The inner loop of getGlobalReachingDefs: what is found from one predecessor.
use llvm_mctoll.Base.{
  ℕ, ◌≡◌, ◌⊎◌, sym, ap, subst, ◌∙◌, Bool, true, false, Option, none, some, List, ◌∷◌, get_elem?,
  arith, inl, inr, All,
}
use llvm_mctoll.X86.Instr.{mem}
use llvm_mctoll.X86.Reaching.{set_flag}
use llvm_mctoll.X86.Tracker.Arguments.{DefVal}
use llvm_mctoll.X86.Tracker.Search.{same_def}
use llvm_mctoll.X86.Tracker.Lists.{has_def, set_here, set_keeps, set_back}

-- The block is visited, or is to be.
abbrev pub Seen : List Bool → List ℕ → ℕ → Type 0
Seen v st q = (get_elem? v q ≡ some true) ⊎ (mem q st ≡ true)

mem_cases : (q b : ℕ) (rest : List ℕ) → mem q (b ∷ rest) ≡ true → (q ≡ b) ⊎ (mem q rest ≡ true)
unfolding mem
mem_cases q b rest h = ground arith

drop-Seen :
    (v : List Bool) (b : ℕ) (rest : List ℕ) (q : ℕ)
    → get_elem? v b ≡ some true
    → Seen v (b ∷ rest) q
    → Seen v rest q
drop-Seen v b rest q e (inl f) = inl f
drop-Seen v b rest q e (inr m) = elim (mem_cases q b rest m) [
  | inl same ↦ inl (ap (get_elem? v) same ∙ e)
  | inr k ↦ inr k
]

visit-Seen :
    (v : List Bool) (b : ℕ) (rest st : List ℕ) (q : ℕ)
    → get_elem? v b ≡ some false
    → ((p : ℕ) → mem p rest ≡ true → mem p st ≡ true)
    → Seen v (b ∷ rest) q
    → Seen (set_flag v b) st q
visit-Seen v b rest st q e more (inl f) = inl (set_keeps v b q f)
visit-Seen v b rest st q e more (inr m) = elim (mem_cases q b rest m) [
  | inl same ↦ inl (ap (get_elem? (set_flag v b)) same ∙ set_here v b e)
  | inr k ↦ inr (more q k)
]

module _ (pss : List (List ℕ)) (probe : ℕ → Option DefVal) where
  -- A block that is reached against the control flow from `start`, through blocks with no definition.
  pub data Reached (start : ℕ) : ℕ → Type 0 where
    here : Reached start start
    further :
        (b : ℕ) (ps : List ℕ) (i p : ℕ)
        → Reached start b
        → probe b ≡ some none
        → get_elem? pss b ≡ some ps
        → get_elem? ps i ≡ some p
        → Reached start p

  abbrev pub Defines : ℕ → ℕ × ℕ → Type 0
  Defines b d = probe b ≡ some (some d)

  -- What is known of a visited block.
  pub data Handled (v : List Bool) (st : List ℕ) (acc : List (ℕ × ℕ)) (b : ℕ) : Type 0 where
    defines : (d : ℕ × ℕ) → Defines b d → has_def d acc ≡ true → Handled v st acc b
    passes :
        probe b ≡ some none
        → ((ps : List ℕ) (i q : ℕ)
            → get_elem? pss b ≡ some ps
            → get_elem? ps i ≡ some q
            → Seen v st q)
        → Handled v st acc b

  -- The invariant of the loop, from the definitions `old`.
  pub record Inv (start : ℕ) (old : List (ℕ × ℕ)) (v : List Bool) (st : List ℕ) (acc : List (ℕ × ℕ))
      : Type 0 where
    pub stacked : All (Reached start) st
    pub sound :
        (d : ℕ × ℕ)
        → has_def d acc ≡ true
        → (has_def d old ≡ true)
          ⊎ ((b : ℕ) × Reached start b × (e : ℕ × ℕ) × Defines b e × (same_def e d ≡ true))
    pub keeps : (d : ℕ × ℕ) → has_def d old ≡ true → has_def d acc ≡ true
    pub closed : (b : ℕ) → get_elem? v b ≡ some true → Handled v st acc b
    pub started : Seen v st start

  Handled-mono :
      (v v' : List Bool) (st st' : List ℕ) (acc acc' : List (ℕ × ℕ)) (b : ℕ)
      → ((q : ℕ) → Seen v st q → Seen v' st' q)
      → ((d : ℕ × ℕ) → has_def d acc ≡ true → has_def d acc' ≡ true)
      → Handled v st acc b
      → Handled v' st' acc' b
  Handled-mono v v' st st' acc acc' b s k (defines d e h) = defines d e (k d h)
  Handled-mono v v' st st' acc acc' b s k (passes e h) =
      passes e (λ ps i q g g'. s q (h ps i q g g'))

  module _ (start : ℕ) (old : List (ℕ × ℕ)) where
    -- A block that was visited before is dropped.
    pub Inv-drop :
        (v : List Bool) (b : ℕ) (rest : List ℕ) (acc : List (ℕ × ℕ))
        → Inv start old v (b ∷ rest) acc
        → get_elem? v b ≡ some true
        → Inv start old v rest acc
    Inv-drop v b rest acc h e = record {
      stacked = h.stacked.1;
      sound = h.sound;
      keeps = h.keeps;
      closed = λ q g. Handled-mono v v (b ∷ rest) rest acc acc q seen (λ d k. k) (h.closed q g);
      started = seen start h.started;
    }
      where
        seen : (q : ℕ) → Seen v (b ∷ rest) q → Seen v rest q
        seen q s = drop-Seen v b rest q e s

    -- A block that is visited now, with the list and the definitions that it leaves.
    pub Inv-visit :
        (v : List Bool) (b : ℕ) (rest st : List ℕ) (acc acc' : List (ℕ × ℕ))
        → Inv start old v (b ∷ rest) acc
        → get_elem? v b ≡ some false
        → ((q : ℕ) → mem q rest ≡ true → mem q st ≡ true)
        → ((d : ℕ × ℕ) → has_def d acc ≡ true → has_def d acc' ≡ true)
        → All (Reached start) st
        → ((d : ℕ × ℕ)
            → has_def d acc' ≡ true
            → (has_def d acc ≡ true)
              ⊎ ((c : ℕ) × Reached start c × (e : ℕ × ℕ) × Defines c e × (same_def e d ≡ true)))
        → Handled (set_flag v b) st acc' b
        → Inv start old (set_flag v b) st acc'
    Inv-visit v b rest st acc acc' h e more grow stacked' from handled = record {
      stacked = stacked';
      sound = λ d k. elim (from d k) [ inl o ↦ h.sound d o | inr r ↦ inr r ];
      keeps = λ d k. grow d (h.keeps d k);
      closed = λ q g. elim (set_back v b q g) [
        | inl same ↦ subst (λ z. Handled (set_flag v b) st acc' z) (sym same) handled
        | inr old_flag ↦
            Handled-mono v (set_flag v b) (b ∷ rest) st acc acc' q seen grow (h.closed q old_flag)
      ];
      started = seen start h.started;
    }
      where
        seen : (q : ℕ) → Seen v (b ∷ rest) q → Seen (set_flag v b) st q
        seen q s = visit-Seen v b rest st q e more s
