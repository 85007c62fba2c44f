-- ===== src/Vsa/ValueSet.antt =====
-- ValueSet: a set of pairs of a memory region and a set of values, and the ways the analysis builds
-- one from others. Two pairs are the same to the container when `operator==` says so, which compares
-- the sets with eq_ric. The order of the list stands for the container's order.
use llvm_mctoll.Base.{ℕ, ◌==◌, if◌then◌else◌, Bool, false, ◌&&◌, ◌||◌, List, [], ◌∷◌}
use llvm_mctoll.Base.Word.{add64}
use llvm_mctoll.Ric.Defs.{Ric, make_ric, make_ric_with, empty_ric, eq_ric, adjust_ric, multiply_ric}

pub record RgnRicPair : Type 0 where
  pub region : ℕ
  pub ric : Ric

abbrev pub pair : ℕ → Ric → RgnRicPair
pair region ric = record { region = region; ric = ric }

abbrev pub eq_pair : RgnRicPair → RgnRicPair → Bool
eq_pair p q = p.region == q.region && eq_ric p.ric q.ric

abbrev pub ValueSet : Type 0
ValueSet = List RgnRicPair

abbrev pub holds : RgnRicPair → ValueSet → Bool
holds p [] = false
holds p (q ∷ s) = eq_pair q p || holds p s

abbrev pub insert : RgnRicPair → ValueSet → ValueSet
insert p s = if holds p s then s else p ∷ s

abbrev pub zero_set : ValueSet
zero_set = insert (pair 0 empty_ric) []

abbrev pub constant_set : ℕ → ValueSet
constant_set value = insert (pair 0 (make_ric 1 0 0 value)) []

-- The pair that crossValueSets makes of two: the offsets are added, the rest is the old one's.
abbrev pub cross_pair : RgnRicPair → RgnRicPair → RgnRicPair
cross_pair old src = pair old.region (
    make_ric_with old.ric.alignment old.ric.index_lower_bound old.ric.index_upper_bound
      (add64 old.ric.offset src.ric.offset) old.ric.lower_bound_state old.ric.upper_bound_state)

abbrev pub cross_row : RgnRicPair → ValueSet → ValueSet → ValueSet
cross_row old [] new_set = new_set
cross_row old (p ∷ src) new_set = cross_row old src (insert (cross_pair old p) new_set)

abbrev pub cross_rows : ValueSet → ValueSet → ValueSet → ValueSet
cross_rows [] src new_set = new_set
cross_rows (old ∷ dest) src new_set = cross_rows dest src (cross_row old src new_set)

unfoldable pub cross_value_sets : ValueSet → ValueSet → ValueSet
cross_value_sets dest src = cross_rows dest src []

-- The loop over the source that scales each of its sets.
abbrev pub multiply_loop : ℕ → ValueSet → ValueSet → ValueSet
multiply_loop times [] mult = mult
multiply_loop times (p ∷ s) mult =
    multiply_loop times s (insert (pair p.region (multiply_ric p.ric times)) mult)

-- The loop that moves each set of the destination.
abbrev pub adjust_loop : ℕ → ValueSet → ValueSet → ValueSet
adjust_loop value [] updated = updated
adjust_loop value (p ∷ s) updated =
    adjust_loop value s (insert (pair p.region (adjust_ric p.ric value)) updated)
