-- ===== src/Ric/Bounds.antt =====
-- Where the quotient and the limits of the two sets put a value.
use native.Mathlib.Nat.{mul-le-mul_right, mul-le-mul_left, div-add-mod}
use llvm_mctoll.Base.{
  ℕ, ◌+◌, ◌-◌, ◌*◌, ◌/◌, ◌%◌, ◌^◌, ◌≤◌, ◌<◌, ◌≡◌, ◌==◌, if◌then◌else◌, Bool, true, false, ◌&&◌,
  ◌||◌, not, none, some, arith,
}
use llvm_mctoll.Base.Word.{add64, sub64, mul64, slt, sle}
use llvm_mctoll.Ric.Defs.{Ric, set, contains_value, lower_value, upper_value, is_subset_of}
use llvm_mctoll.Ric.Members.{IsBounded, IsMember, mul64-small}

nest_false :
    (z m o : Bool)
    → z ≡ false
    → (m ≡ true → o ≡ true)
    → (if z then none else if not m then some false else if o then some false else some true)
      ≡ some false
nest_false z m o h k = ground arith

or-true : (x y : Bool) → y ≡ true → (x || y) ≡ true
or-true x y h = ground arith

sub64-below : (v o : ℕ) → v < o → o < 2 ^ 62 → sub64 v o ≡ 2 ^ 64 - (o - v)
unfolding sub64
sub64-below v o h k = omega arith

-- A large multiple of a number from 2 on has a quotient between a small bound and the sign bit.
slt-quotient :
    (a u q m : ℕ)
    → 2 ≤ a
    → a * u < 2 ^ 62
    → u < 2 ^ 62
    → 2 ^ 62 ≤ m
    → m < 2 ^ 64
    → m ≡ a * q
    → slt u q ≡ true
slt-quotient a u q m ha hau hu lo hi e = ground (arith, above, rank_u)
  where
    small : 2 * q ≤ a * q
    small = mul-le-mul_right q ha

    above : u < q
    above = grind (arith, mul-le-mul_left)

    rank_u : q < 2 ^ 63
    rank_u = omega (arith, small, e)

exact_quotient : (m a : ℕ) → (m % a == 0) ≡ true → m ≡ a * (m / a)
exact_quotient m a h = ground (arith, div-add-mod m a)

-- A value below the offset is never found where the alignment is 2 or more and the upper bound is
-- set, whatever the lower bound, negative ones included: the remainder and the quotient are taken of
-- the wrapped, unsigned difference, so a negative index is read as a large positive one. The value,
-- the offset and the upper bound are not negative and below 2^62.
pub contains_value_below :
    (r : Ric) (v : ℕ)
    → 2 ≤ r.alignment
    → r.upper_bound_state ≡ set
    → r.index_upper_bound < 2 ^ 62
    → r.alignment * r.index_upper_bound < 2 ^ 62
    → r.offset < 2 ^ 62
    → v < r.offset
    → contains_value r v ≡ some false
unfolding contains_value
contains_value_below r v ha hs hu ht ho hv = rw hs (
    nest_false _ _ _ (ground arith) (λ d. or-true _ _ (
      slt-quotient r.alignment _ _ (sub64 v r.offset) ha ht hu
        (rw (sub64-below v r.offset hv ho) (omega arith))
        (rw (sub64-below v r.offset hv ho) (omega arith)) (exact_quotient _ r.alignment d))))

limit_value : (o a l : ℕ) → o < 2 ^ 62 → a * l < 2 ^ 62 → add64 o (mul64 a l) ≡ o + a * l
unfolding add64
limit_value o a l ho hl = rw (mul64-small a l (omega arith)) (omega arith)

sle-small : (x y : ℕ) → x < 2 ^ 63 → y < 2 ^ 63 → sle x y ≡ true → x ≤ y
sle-small x y hx hy h = ground arith

subset_tests : (z x y : Bool) → (if z then false else (x && y)) ≡ true → (x ≡ true) × (y ≡ true)
subset_tests z x y h = ground arith

is_subset_of-limits :
    (r ric : Ric)
    → IsBounded r
    → IsBounded ric
    → is_subset_of r ric ≡ true
    → (sle (lower_value ric) (lower_value r) ≡ true)
      × (sle (upper_value r) (upper_value ric) ≡ true)
unfolding is_subset_of
is_subset_of-limits r ric b b' =
    rw (b.lower_set, b.upper_set, b'.lower_set, b'.upper_set) (subset_tests _ _ _)

limits-le :
    (o a l o' a' l' : ℕ)
    → o < 2 ^ 62
    → a * l < 2 ^ 62
    → o' < 2 ^ 62
    → a' * l' < 2 ^ 62
    → sle (add64 o (mul64 a l)) (add64 o' (mul64 a' l')) ≡ true
    → o + a * l ≤ o' + a' * l'
limits-le o a l o' a' l' ho hl ho' hl' =
    rw (limit_value o a l ho hl, limit_value o' a' l' ho' hl')
      (λ h. sle-small _ _ (omega (arith, ho, hl)) (omega (arith, ho', hl')) h)

unit_scaled : (a n b : ℕ) → a ≡ 1 → n < b → a * n < b
unit_scaled a n b e h = rw e (omega arith)

-- Under a parent of alignment 1 the test for a subset can be trusted: where it says yes, each value
-- of the set is a value of the parent. Both sets are bounded.
pub is_subset_of_sound :
    (r ric : Ric) (v : ℕ)
    → IsBounded r
    → IsBounded ric
    → ric.alignment ≡ 1
    → is_subset_of r ric ≡ true
    → IsMember r v
    → IsMember ric v
unfolding lower_value upper_value
is_subset_of_sound r ric v b b' unit_ sub (i, e, l, u) = (
  v - ric.offset,
  rw unit_ (omega (arith, low, base)),
  omega (arith, low, base),
  omega (arith, top),
)
  where
    first : r.alignment * r.index_lower_bound ≤ r.alignment * i
    first = mul-le-mul_left r.alignment l

    last : r.alignment * i ≤ r.alignment * r.index_upper_bound
    last = mul-le-mul_left r.alignment u

    limits :
        (sle (lower_value ric) (lower_value r) ≡ true)
        × (sle (upper_value r) (upper_value ric) ≡ true)
    limits = is_subset_of-limits r ric b b' sub

    low : ric.offset + 1 * ric.index_lower_bound ≤ r.offset + r.alignment * r.index_lower_bound
    low = rw unit_ at (
        limits-le _ ric.alignment _ _ _ _ b'.base (unit_scaled _ _ _ unit_ b'.lower) b.base
          (omega (arith, first, last, b.top)) limits.0)

    ceiling : r.offset + r.alignment * r.index_upper_bound ≤ ric.offset + 1 * ric.index_upper_bound
    ceiling = rw unit_ at (
        limits-le _ _ _ _ ric.alignment _ b.base b.top b'.base (unit_scaled _ _ _ unit_ b'.upper)
          limits.1)

    base : r.offset + r.alignment * r.index_lower_bound ≤ v
    base = omega (arith, e, first)

    top : v ≤ ric.offset + ric.index_upper_bound
    top = omega (arith, e, last, ceiling)
