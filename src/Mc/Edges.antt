-- ===== src/Mc/Edges.antt =====
-- buildCFG's loop over the blocks: the assertion that each block has recorded targets.
use llvm_mctoll.Base.{
  ℕ, suc, ◌<◌, ◌==◌, ltb, ◌≡◌, refl, Option, none, some, ◌>>=◌, List, [], ◌∷◌, length, Ensures,
  failed, done, Ensures-bind, Ensures-some, Bool-cases, inl, inr, ==_iff, arith,
}
use llvm_mctoll.Mc.Cell.{McInstOrData, is_mc_inst}
use llvm_mctoll.Mc.Raiser.{McInstRaiser, map_insert, map_find, set_holds}
use llvm_mctoll.Mc.Cfg.{
  Analysis, Cfg, Entry, empty_cfg, record_last, close_block, open_block, push_back, add_inst,
  add_entry, add_entries, finish, build_blocks, add_edges, build_cfg,
}

abbrev pub HasEntry : {A : Type 0} → ℕ → List (ℕ × A) → Type 0
HasEntry {A} k m = (v : A) × (map_find k m ≡ some v)

module _ {A : Type 0} where
  HasEntry-map_insert : (k : ℕ) (v : A) (m : List (ℕ × A)) → HasEntry k (map_insert k v m)
  HasEntry-map_insert k v [] = rw ((==_iff k k).1 refl) (_, refl)
  HasEntry-map_insert k v ((j, w) ∷ m) = elim (Bool-cases (k == j)) [
    | inl e ↦ rw (e, e) (_, refl)
    | inr e ↦ elim (Bool-cases (ltb k j)) [
      | inl l ↦ rw (e, l, (==_iff k k).1 refl) (_, refl)
      | inr l ↦ rw (e, l, e) (HasEntry-map_insert k v m)
    ]
  ]

  HasEntry-cons : (n k : ℕ) (v : A) (m : List (ℕ × A)) → HasEntry n m → HasEntry n ((k, v) ∷ m)
  HasEntry-cons n k v m h = elim (Bool-cases (n == k)) [ inl e ↦ rw e (_, refl) | inr e ↦ rw e h ]

  HasEntry-keep :
      (n k : ℕ) (v : A) (m : List (ℕ × A)) → HasEntry n m → HasEntry n (map_insert k v m)
  HasEntry-keep n k v [] (w, h) = cc
  HasEntry-keep n k v ((j, w) ∷ m) h = elim (Bool-cases (k == j)) [
    | inl e ↦ rw e h
    | inr e ↦ elim (Bool-cases (ltb k j)) [
      | inl l ↦ rw (e, l) (HasEntry-cons n k v ((j, w) ∷ m) h)
      | inr l ↦ elim (Bool-cases (n == j)) [
        | inl f ↦ rw (e, l, f) (_, refl)
        | inr f ↦ rw (e, l, f) (HasEntry-keep n k v m (rw f at h))
      ]
    ]
  ]

module _ {Inst : Type 0} (mia : Analysis Inst) (r : McInstRaiser Inst) where
  -- Every block below `count` has recorded targets.
  abbrev Recorded : ℕ → Cfg Inst → Type 0
  Recorded count c = (n : ℕ) → n < count → HasEntry n c.targets

  -- Every block but the last one.
  abbrev Current : Cfg Inst → Type 0
  Current c = (n : ℕ) → suc n < length c.blocks → HasEntry n c.targets

  abbrev Closed : Cfg Inst → Cfg Inst → Type 0
  Closed c d = (d.blocks ≡ c.blocks) × Recorded (length c.blocks) d

  record_last-Recorded :
      (ts : List ℕ) (b : List (ℕ × Inst)) (bs : List (List (ℕ × Inst))) (c : Cfg Inst)
      → Recorded (length bs) c
      → Recorded (suc (length bs)) (record_last mia r ts (b ∷ bs) c)
  record_last-Recorded ts b bs c h n l = elim (Bool-cases (n == length bs)) [
    | inl e ↦ rw ((==_iff n (length bs)).0 e) (HasEntry-map_insert (length bs) ts c.targets)
    | inr e ↦ HasEntry-keep n (length bs) ts c.targets (h n (ground arith))
  ]

  Current-Recorded :
      (b : List (ℕ × Inst)) (bs : List (List (ℕ × Inst))) (c : Cfg Inst)
      → c.blocks ≡ b ∷ bs
      → Current c
      → Recorded (length bs) c
  Current-Recorded b bs c e h n l = h n (rw e (omega arith))

  close_block-Closed :
      (prev : Option (Entry Inst)) (index : ℕ) (bs : List (List (ℕ × Inst))) (c : Cfg Inst)
      → c.blocks ≡ bs
      → Current c
      → Ensures (Closed c) (close_block mia r prev index bs c)
  close_block-Closed prev index [] c e h = done (refl, rw e (λ n l. absurd (omega arith)))
  close_block-Closed prev index (b ∷ bs) c e h =
      Ensures-bind _ _
        (λ ts f. done (refl, rw e (record_last-Recorded ts b bs c (Current-Recorded b bs c e h))))

  push_back-Current :
      (i : ℕ × Inst) (bs : List (List (ℕ × Inst))) (c : Cfg Inst)
      → c.blocks ≡ bs
      → Current c
      → Ensures Current (push_back mia r i bs c)
  push_back-Current i [] c e h = failed
  push_back-Current i (b ∷ bs) c e h = done (λ n l. Current-Recorded b bs c e h n (omega arith))

  open-Current : (index : ℕ) (c d : Cfg Inst) → Closed c d → Current (open_block mia r index d)
  open-Current index c d h n l = h.1 n (rw (← h.0) (omega arith))

  add_inst-Current :
      (prev : Option (Entry Inst)) (k : ℕ) (i : Inst) (c : Cfg Inst)
      → Current c
      → Ensures Current (add_inst mia r prev k i c)
  unfolding add_inst
  add_inst-Current prev k i c h = elim (Bool-cases (set_holds k r.target_indices)) [
    | inl e ↦ rw e (
        Ensures-bind _ _ (λ d f.
          push_back-Current (k, i) _ (open_block mia r k d) refl
            (open-Current k c d (Ensures-some (close_block-Closed prev k c.blocks c refl h) f))))
    | inr e ↦ rw e (push_back-Current (k, i) c.blocks c refl h)
  ]

  add_entry-Current :
      (prev : Option (Entry Inst)) (k : ℕ) (e : McInstOrData Inst) (c : Cfg Inst)
      → Current c
      → Ensures Current (add_entry mia r prev (k, e) c)
  unfolding add_entry
  add_entry-Current prev k e c h = elim (Bool-cases (is_mc_inst e)) [
    | inl t ↦ rw t (Ensures-bind _ _ (λ i f. add_inst-Current prev k i c h))
    | inr t ↦ rw t (done h)
  ]

  add_entries-Current :
      (prev : Option (Entry Inst)) (es : List (Entry Inst)) (c : Cfg Inst)
      → Current c
      → Ensures Current (add_entries mia r prev es c)
  unfolding add_entries
  add_entries-Current prev [] c h = done h
  add_entries-Current prev ((k, e) ∷ es) c h = Ensures-bind _ _ (λ d f.
      add_entries-Current (some (k, e)) es d (Ensures-some (add_entry-Current prev k e c h) f))

  abbrev Complete : Cfg Inst → Type 0
  Complete c = Recorded (length c.blocks) c

  finish-Complete :
      (bs : List (List (ℕ × Inst))) (c : Cfg Inst)
      → c.blocks ≡ bs
      → Current c
      → Ensures Complete (finish mia r bs c)
  finish-Complete [] c e h = done (rw e (λ n l. absurd (omega arith)))
  finish-Complete (b ∷ bs) c e h =
      Ensures-bind _ _
        (λ ts f. done (rw e (record_last-Recorded ts b bs c (Current-Recorded b bs c e h))))

  build_blocks-Complete : Ensures Complete (build_blocks mia r)
  unfolding build_blocks
  build_blocks-Complete = Ensures-bind _ _ (λ c f. finish-Complete c.blocks c refl (
      Ensures-some
        (add_entries-Current none r.inst_map (empty_cfg mia r) (λ n l. absurd (omega arith))) f))

  add_edges-some :
      (c : Cfg Inst) (bs : List (List (ℕ × Inst)))
      → Recorded (length bs) c
      → (edges : List (List ℕ)) × (add_edges mia r c bs ≡ some edges)
  unfolding ◌>>=◌
  add_edges-some c [] h = (_, refl)
  add_edges-some c (b ∷ bs) h =
      rw ((add_edges-some c bs (λ n l. h n (omega arith))).1, (h (length bs) (omega arith)).1)
        (_, refl)

  pub build_cfg-some :
      (c : Cfg Inst)
      → build_blocks mia r ≡ some c
      → (edges : List (List ℕ)) × (build_cfg mia r ≡ some (c, edges))
  unfolding build_cfg ◌>>=◌
  build_cfg-some c e =
      rw (e, (add_edges-some c c.blocks (Ensures-some build_blocks-Complete e)).1) (_, refl)
