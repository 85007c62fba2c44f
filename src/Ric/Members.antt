-- ===== src/Ric/Members.antt =====
-- Which values a set holds.
use native.Mathlib.Nat.{mul-le-mul_right, div-le_self, div-add-mod, mul-mod_right, mul-div_right}
use llvm_mctoll.Base.{
  ℕ, ◌+◌, ◌*◌, ◌/◌, ◌%◌, ◌^◌, ◌≤◌, ◌<◌, ◌≡◌, ◌↔◌, ◌==◌, if◌then◌else◌, Bool, true, false, ◌||◌, not,
  refl, none, some, arith,
}
use llvm_mctoll.Base.Word.{IsWord, add64, sub64, mul64, slt}
use llvm_mctoll.Ric.Defs.{Ric, set, contains_value, adjust_ric, multiply_ric}

sub64-IsWord : (a b : ℕ) → IsWord (sub64 a b)
unfolding sub64
sub64-IsWord a b = omega arith

sub64-add64 :
    (v c o : ℕ) → IsWord v → IsWord c → IsWord o → sub64 (add64 v c) (add64 o c) ≡ sub64 v o
unfolding sub64 add64
sub64-add64 v c o hv hc ho = omega arith

-- Moving a set by a number moves its members by that number, wrap-around included.
pub contains_value-adjust_ric :
    (r : Ric) (v c : ℕ)
    → IsWord v
    → IsWord c
    → IsWord r.offset
    → contains_value (adjust_ric r c) (add64 v c) ≡ contains_value r v
unfolding contains_value adjust_ric
contains_value-adjust_ric r v c hv hc ho = rw (sub64-add64 v c r.offset hv hc ho)

-- A set with both bounds, whose indices and values stay clear of the sign bit.
pub record IsBounded (r : Ric) : Type 0 where
  pub aligned : 0 < r.alignment
  pub lower : r.index_lower_bound < 2 ^ 62
  pub upper : r.index_upper_bound < 2 ^ 62
  pub base : r.offset < 2 ^ 62
  pub top : r.alignment * r.index_upper_bound < 2 ^ 62
  pub lower_set : r.lower_bound_state ≡ set
  pub upper_set : r.upper_bound_state ≡ set

-- `offset + alignment * i` for an index i within the bounds.
abbrev pub IsMember : Ric → ℕ → Type 0
IsMember r v =
    (i : ℕ) × (v ≡ r.offset + r.alignment * i)
    × (r.index_lower_bound ≤ i)
    × (i ≤ r.index_upper_bound)

-- The signed tests of an index against small bounds.
slt-bounds :
    (l u i : ℕ)
    → l < 2 ^ 62
    → u < 2 ^ 62
    → i < 2 ^ 64
    → ((slt i l || slt u i) ≡ false) ↔ ((l ≤ i) × (i ≤ u))
slt-bounds l u i hl hu hi = ground arith

-- A nest of tests, and what makes it say yes.
tests_true :
    (z m o : Bool)
    → z ≡ false
    → ((if z then none else if not m then some false else if o then some false else some true)
        ≡ some true)
      ↔ ((m ≡ true) × (o ≡ false))
tests_true z m o h = ground arith

module _ (r : Ric) (b : IsBounded r) where
  open b use {aligned, lower, upper, base, top, lower_set, upper_set}

  scaled : (i : ℕ) → i ≤ r.index_upper_bound → r.alignment * i < 2 ^ 62
  scaled i h = grind arith

  sub64_offset : (m : ℕ) → m < 2 ^ 62 → sub64 (r.offset + m) r.offset ≡ m
  unfolding sub64
  sub64_offset m h = omega arith

  add_offset : (v m : ℕ) → IsWord v → m < 2 ^ 62 → sub64 v r.offset ≡ m → v ≡ r.offset + m
  unfolding sub64
  add_offset v m hv hm e = omega arith

  -- The method's tests, where both bounds are set.
  abbrev Tests : ℕ → Type 0
  Tests m =
      ((m % r.alignment == 0) ≡ true)
      × ((slt (m / r.alignment) r.index_lower_bound || slt r.index_upper_bound (m / r.alignment))
          ≡ false)

  contains_value-Tests : (v : ℕ) → (contains_value r v ≡ some true) ↔ Tests (sub64 v r.offset)
  unfolding contains_value
  contains_value-Tests v = rw (lower_set, upper_set) (tests_true _ _ _ (ground arith))

  div-IsWord : (m : ℕ) → IsWord m → IsWord (m / r.alignment)
  div-IsWord m h = grind (arith, div-le_self)

  Tests-IsMember : (v : ℕ) → IsWord v → Tests (sub64 v r.offset) → IsMember r v
  Tests-IsMember v hv (divides, within) =
      (i, add_offset v (r.alignment * i) hv (scaled i bounds.1) exact, bounds.0, bounds.1)
    where
      i : ℕ
      i = sub64 v r.offset / r.alignment

      bounds : (r.index_lower_bound ≤ i) × (i ≤ r.index_upper_bound)
      bounds = (slt-bounds _ _ i lower upper (div-IsWord _ (sub64-IsWord v r.offset))).0 within

      exact : sub64 v r.offset ≡ r.alignment * i
      exact = ground (arith, div-add-mod (sub64 v r.offset) r.alignment)

  IsMember-Tests : (v : ℕ) → IsMember r v → Tests (sub64 v r.offset)
  IsMember-Tests v (i, e, l, u) =
      rw
        (
          e,
          sub64_offset (r.alignment * i) (scaled i u),
          mul-mod_right r.alignment i,
          mul-div_right i aligned,
        )
        (refl, (slt-bounds _ _ i lower upper (omega arith)).1 (l, u))

  -- The method answers yes exactly at the values `offset + alignment * i` with an index i within
  -- the bounds, for a set whose bounds are both set and, like its values, below 2 ^ 62.
  pub contains_value_iff : (v : ℕ) → IsWord v → (contains_value r v ≡ some true) ↔ IsMember r v
  contains_value_iff v hv = (
    λ h. Tests-IsMember v hv ((contains_value-Tests v).0 h),
    λ h. (contains_value-Tests v).1 (IsMember-Tests v h),
  )

pub mul64-small : (a b : ℕ) → a * b < 2 ^ 64 → mul64 a b ≡ a * b
unfolding mul64
mul64-small a b h = omega arith

-- Scaling a set by a number scales its members: what the method leaves is a set that holds `v *
-- times` for each value v of the old one. No product passes 2 ^ 64, and both sets are bounded.
pub contains_value-multiply_ric :
    (r : Ric) (v times : ℕ)
    → IsBounded r
    → IsBounded (multiply_ric r times)
    → IsWord v
    → v * times < 2 ^ 64
    → r.offset * times < 2 ^ 64
    → r.index_lower_bound * times < 2 ^ 64
    → r.index_upper_bound * times < 2 ^ 64
    → contains_value r v ≡ some true
    → contains_value (multiply_ric r times) (v * times) ≡ some true
unfolding multiply_ric
contains_value-multiply_ric r v times b b' hv hvt ho hl hu c =
    (contains_value_iff (multiply_ric r times) b' (v * times) hvt).1
      (scale ((contains_value_iff r b v hv).0 c))
  where
    scale : IsMember r v → IsMember (multiply_ric r times) (v * times)
    scale (i, e, l, u) = (
      i * times,
      rw (e, mul64-small r.offset times ho) (grind arith),
      rw (mul64-small r.index_lower_bound times hl) (mul-le-mul_right times l),
      rw (mul64-small r.index_upper_bound times hu) (mul-le-mul_right times u),
    )
