-- ===== src/Mc/Offsets.antt =====
-- getMBBNumberOfMCInstOffset of Raiser/MCInstRaiser.cpp. A block is the list of the offsets that its
-- instructions were raised from, and `none` a failed assertion.
use llvm_mctoll.Base.{
  ℕ, suc, ◌+◌, ◌%◌, ◌^◌, ◌≤◌, ◌<◌, ◌≡◌, ◌⊎◌, refl, ap, subst, ◌∙◌, ltb, leb, if◌then◌else◌, Bool,
  true, false, ◌||◌, ◌&&◌, Option, none, some, List, [], ◌∷◌, get_elem?, arith, inl, inr, ◌>>=◌,
  >>=_some,
}
use mathlib.Core.Option.{some-injective}
use llvm_mctoll.Base.Word.{add64}
use llvm_mctoll.Mc.Raiser.{McInstRaiser, get_mc_inst_size, map_find}

if_cases :
    {A : Type 0} (b : Bool) (x y z : A)
    → (if b then x else y) ≡ z
    → ((b ≡ true) × (x ≡ z)) ⊎ ((b ≡ false) × (y ≡ z))
if_cases true x y z h = inl (refl, h)
if_cases false x y z h = inr (refl, h)

abbrev pub total : List ℕ → ℕ
total [] = 0
total (n ∷ ns) = n + total ns

module _ {Inst : Type 0} (r : McInstRaiser Inst) where
  -- The sum, in an unsigned number of 32 bits.
  unfoldable pub size_in_bytes : ℕ → List ℕ → Option ℕ
  size_in_bytes sum [] = some sum
  size_in_bytes sum (i ∷ is) = do
    size ← get_mc_inst_size r i
    size_in_bytes ((sum + size) % 2 ^ 32) is

  -- The loop over InstToMBBNum; `none` inside is -1.
  unfoldable pub mbb_around : List (List ℕ) → ℕ → List (ℕ × ℕ) → Option (Option ℕ)
  mbb_around blocks offset [] = some none
  mbb_around blocks offset ((start, n) ∷ m) =
      let rest = mbb_around blocks offset m in
      (do
        block ← get_elem? blocks n
        size ← size_in_bytes 0 block
        (if leb start offset && ltb offset (add64 start size) then some (some n) else rest))

  abbrev pub or_around : List (List ℕ) → ℕ → List (ℕ × ℕ) → Option ℕ → Option (Option ℕ)
  or_around blocks offset m (some n) = some (some n)
  or_around blocks offset m none = mbb_around blocks offset m

  unfoldable pub get_mbb_number_of_mc_inst_offset :
      List (ℕ × ℕ) → List (List ℕ) → ℕ → Option (Option ℕ)
  get_mbb_number_of_mc_inst_offset inst_to_mbb_num blocks offset =
      if ltb offset r.func_start || ltb r.func_end offset
      then some none
      else or_around blocks offset inst_to_mbb_num (map_find offset inst_to_mbb_num)

  -- The sizes of instructions, one for each.
  pub data Sizes : List ℕ → List ℕ → Type 0 where
    no_sizes : Sizes [] []
    size_and :
        {i size : ℕ} {is sizes : List ℕ}
        → get_mc_inst_size r i ≡ some size
        → Sizes is sizes
        → Sizes (i ∷ is) (size ∷ sizes)

  -- The offset starts the block, or lies in its bytes: from its start on, as many as its instructions
  -- have together, in an unsigned number of 32 bits.
  pub data IsInBlock (inst_to_mbb_num : List (ℕ × ℕ)) (blocks : List (List ℕ)) (offset n : ℕ)
      : Type 0 where
    starts : map_find offset inst_to_mbb_num ≡ some n → IsInBlock inst_to_mbb_num blocks offset n
    lies_in :
        (start : ℕ) (block sizes : List ℕ) (i : ℕ)
        → get_elem? inst_to_mbb_num i ≡ some (start, n)
        → get_elem? blocks n ≡ some block
        → Sizes block sizes
        → start ≤ offset
        → offset < add64 start (total sizes % 2 ^ 32)
        → IsInBlock inst_to_mbb_num blocks offset n

  abbrev LiesIn : List (ℕ × ℕ) → List (List ℕ) → ℕ → ℕ → Type 0
  LiesIn m blocks offset n =
      (i : ℕ) × (start : ℕ) × (sizes : List ℕ) × (block : List ℕ) × (get_elem? m i
        ≡ some (start, n))
      × (get_elem? blocks n ≡ some block)
      × Sizes block sizes
      × (start ≤ offset)
      × (offset < add64 start (total sizes % 2 ^ 32))

  size_in_bytes-total :
      (sum : ℕ) (is : List ℕ) (bytes : ℕ)
      → sum < 2 ^ 32
      → size_in_bytes sum is ≡ some bytes
      → (sizes : List ℕ) × Sizes is sizes × (bytes ≡ (sum + total sizes) % 2 ^ 32)
  unfolding size_in_bytes
  size_in_bytes-total sum [] bytes h e = ([], no_sizes, omega (arith, h, some-injective _ _ e))
  size_in_bytes-total sum (i ∷ is) bytes h e =
      let (size, es, e') = >>=_some (get_mc_inst_size r i) _ bytes e in
      let (sizes, all, same) =
        size_in_bytes-total ((sum + size) % 2 ^ 32) is bytes (omega arith) e' in
      (size ∷ sizes, size_and es all, omega (arith, same))

  size_in_bytes-Sizes :
      (is : List ℕ) (bytes : ℕ)
      → size_in_bytes 0 is ≡ some bytes
      → (sizes : List ℕ) × Sizes is sizes × (bytes ≡ total sizes % 2 ^ 32)
  size_in_bytes-Sizes is bytes e =
      let (sizes, all, same) = size_in_bytes-total 0 is bytes (omega arith) e in
      (sizes, all, omega (arith, same))

  mbb_around-LiesIn :
      (m : List (ℕ × ℕ)) (blocks : List (List ℕ)) (offset n : ℕ)
      → mbb_around blocks offset m ≡ some (some n)
      → LiesIn m blocks offset n
  unfolding mbb_around
  mbb_around-LiesIn [] blocks offset n h = cc
  mbb_around-LiesIn ((start, k) ∷ m) blocks offset n h =
      let (block, eb, h') = >>=_some (get_elem? blocks k) _ (some n) h in
      let (size, es, h'') = >>=_some (size_in_bytes 0 block) _ (some n) h' in
      elim (if_cases (leb start offset && ltb offset (add64 start size)) _ _ _ h'') [
        | inl (t, e) ↦
            let (sizes, all, sum) = size_in_bytes-Sizes block size es in
            let same : k ≡ n = some-injective _ _ (some-injective _ _ e) in
            (
              0,
              start,
              sizes,
              block,
              ap (λ z. some (start, z)) same,
              subst (λ z. get_elem? blocks z ≡ some block) same eb,
              all,
              ground arith,
              subst (λ z. offset < add64 start z) sum (ground arith),
            )
        | inr (f, e) ↦
            let (i, from, sizes, here, at, eb', all, low, high) =
              mbb_around-LiesIn m blocks offset n e in
            (suc i, from, sizes, here, at, eb', all, low, high)
      ]

  -- The block that an offset is given lies in the function, and starts at the offset or has it among
  -- its bytes.
  pub get_mbb_number_of_mc_inst_offset-IsInBlock :
      (m : List (ℕ × ℕ)) (blocks : List (List ℕ)) (offset n : ℕ)
      → get_mbb_number_of_mc_inst_offset m blocks offset ≡ some (some n)
      → (r.func_start ≤ offset) × (offset ≤ r.func_end) × IsInBlock m blocks offset n
  unfolding get_mbb_number_of_mc_inst_offset
  get_mbb_number_of_mc_inst_offset-IsInBlock m blocks offset n h =
      elim (if_cases (ltb offset r.func_start || ltb r.func_end offset) _ _ _ h) [
        | inl (t, e) ↦ cc
        | inr (f, e) ↦ (ground arith, ground arith, by_map (map_find offset m) refl e)
      ]
    where
      by_map :
          (o : Option ℕ)
          → map_find offset m ≡ o
          → or_around blocks offset m o ≡ some (some n)
          → IsInBlock m blocks offset n
      by_map none e k =
          let (i, start, sizes, block, at, eb, all, low, high) =
            mbb_around-LiesIn m blocks offset n k in
          lies_in start block sizes i at eb all low high
      by_map (some j) e k = starts (e ∙ some-injective _ _ k)
