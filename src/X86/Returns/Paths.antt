-- ===== src/X86/Returns/Paths.antt =====
-- What getReachingReturnType finds.
use llvm_mctoll.Base.{
  ℕ, ◌≡◌, ◌⊎◌, refl, Bool, true, false, Option, none, some, List, ◌∷◌, ◌==◌, get_elem?, inl, inr,
  All, All-append, All-get_elem?,
}
use llvm_mctoll.X86.Reaching.{set_flag, no_flags, unvisited, All-unvisited}
use llvm_mctoll.X86.Types.{IrType}
use llvm_mctoll.X86.Returns.{Walked, walked}
use llvm_mctoll.X86.Returns.Search.{
  Outcome, ended, go_up, after_probe, by_flag, round, search_preds, from_block,
  get_reaching_return_type,
}
use llvm_mctoll.X86.Returns.Rule.{Keeps, search-Keeps}

module _ (pss : List (List ℕ)) (probe : ℕ → Option Walked) where
  -- A block that is reached against the control flow from `mbb` through blocks that have no call and
  -- no definition of the return register, none of which is the entry block.
  pub data BackPath (mbb : ℕ) : ℕ → Type 0 where
    above :
        (ps : List ℕ) (i p : ℕ)
        → get_elem? pss mbb ≡ some ps
        → get_elem? ps i ≡ some p
        → BackPath mbb p
    further :
        (b : ℕ) (ps : List ℕ) (i p : ℕ)
        → BackPath mbb b
        → probe b ≡ some (walked none false)
        → (b == 0) ≡ false
        → get_elem? pss b ≡ some ps
        → get_elem? ps i ≡ some p
        → BackPath mbb p

  -- The type, where there is one, is that of a block reached so.
  abbrev FoundAbove : ℕ → Outcome → Type 0
  FoundAbove mbb o =
      (ty : IrType)
      → o ≡ ended (some ty)
      → (b : ℕ) × (c : Bool) × BackPath mbb b × (probe b ≡ some (walked (some ty) c))

  abbrev Above : ℕ → List Bool → List ℕ → Type 0
  Above mbb visited work_list = All (BackPath mbb) work_list

  go_up-Keeps :
      (mbb : ℕ) (visited : List Bool) (b : ℕ) (rest : List ℕ)
      → BackPath mbb b
      → All (BackPath mbb) rest
      → probe b ≡ some (walked none false)
      → (o : Option (List ℕ)) → get_elem? pss b ≡ o
      → (n : Bool) → (b == 0) ≡ n
      → Keeps pss probe (Above mbb) (FoundAbove mbb) (go_up pss probe visited b rest o)
  go_up-Keeps mbb visited b rest p h w none e n en = λ ty k. cc
  go_up-Keeps mbb visited b rest p h w (some ps) e true en = rw en (λ ty k. cc)
  go_up-Keeps mbb visited b rest p h w (some ps) e false en = rw en (
      All-append (BackPath mbb) rest (unvisited visited ps) h (
        All-unvisited (BackPath mbb) visited ps
          (All-get_elem? (BackPath mbb) ps (λ i q g. further b ps i q p w en e g))))

  after_probe-Keeps :
      (mbb : ℕ) (visited : List Bool) (b : ℕ) (rest : List ℕ)
      → BackPath mbb b
      → All (BackPath mbb) rest
      → (w : Option Walked) → probe b ≡ w
      → Keeps pss probe (Above mbb) (FoundAbove mbb) (after_probe pss probe visited b rest w)
  after_probe-Keeps mbb visited b rest p h none e = λ ty k. cc
  after_probe-Keeps mbb visited b rest p h (some (walked (some t) c)) e = λ ty k. (b, c, p, cc)
  after_probe-Keeps mbb visited b rest p h (some (walked none true)) e = h
  after_probe-Keeps mbb visited b rest p h (some (walked none false)) e =
      go_up-Keeps mbb visited b rest p h e (get_elem? pss b) refl (b == 0) refl

  by_flag-Keeps :
      (mbb : ℕ) (visited : List Bool) (b : ℕ) (rest : List ℕ)
      → BackPath mbb b
      → All (BackPath mbb) rest
      → (o : Option Bool)
      → Keeps pss probe (Above mbb) (FoundAbove mbb) (by_flag pss probe visited b rest o)
  by_flag-Keeps mbb visited b rest p h none = λ ty k. cc
  by_flag-Keeps mbb visited b rest p h (some true) = h
  by_flag-Keeps mbb visited b rest p h (some false) =
      after_probe-Keeps mbb (set_flag visited b) b rest p h (probe b) refl

  round-Keeps :
      (mbb : ℕ) (visited : List Bool) (b : ℕ) (rest : List ℕ)
      → Above mbb visited (b ∷ rest)
      → Keeps pss probe (Above mbb) (FoundAbove mbb) (round pss probe visited b rest)
  unfolding round
  round-Keeps mbb visited b rest h = by_flag-Keeps mbb visited b rest h.0 h.1 (get_elem? visited b)

  search_preds-FoundAbove :
      (mbb : ℕ) (o : Option (List ℕ))
      → get_elem? pss mbb ≡ o
      → FoundAbove mbb (search_preds pss probe o)
  search_preds-FoundAbove mbb none e = λ ty k. cc
  search_preds-FoundAbove mbb (some ps) e =
      search-Keeps pss probe (Above mbb) (FoundAbove mbb) (λ ty k. cc) (λ v h ty k. cc)
        (round-Keeps mbb) _ (no_flags pss) ps
        (All-get_elem? (BackPath mbb) ps (λ i q g. above ps i q e g))

  from_block_sound :
      (mbb : ℕ) (w : Option Walked)
      → probe mbb ≡ w
      → (ty : IrType) → from_block pss probe mbb w ≡ ended (some ty)
      → ((c : Bool) × (probe mbb ≡ some (walked (some ty) c)))
        ⊎ ((b : ℕ) × (c : Bool) × BackPath mbb b × (probe b ≡ some (walked (some ty) c)))
  from_block_sound mbb none e ty k = cc
  from_block_sound mbb (some (walked t true)) e ty k = inl (true, cc)
  from_block_sound mbb (some (walked (some t) false)) e ty k = inl (false, cc)
  from_block_sound mbb (some (walked none false)) e ty k =
      inr (search_preds-FoundAbove mbb (get_elem? pss mbb) refl ty k)

  -- A type that is found is what the block itself sets up, or what a block sets up that is reached
  -- against the control flow through blocks that have no call and set up nothing, none of which is
  -- the entry block.
  pub get_reaching_return_type_sound :
      (mbb : ℕ) (ty : IrType)
      → get_reaching_return_type pss probe mbb ≡ ended (some ty)
      → ((c : Bool) × (probe mbb ≡ some (walked (some ty) c)))
        ⊎ ((b : ℕ) × (c : Bool) × BackPath mbb b × (probe b ≡ some (walked (some ty) c)))
  unfolding get_reaching_return_type
  get_reaching_return_type_sound mbb ty k = from_block_sound mbb (probe mbb) refl ty k
