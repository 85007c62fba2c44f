-- ===== src/Arm/Prolog/Slots.antt =====
-- The stack slots of the saved registers: allocate_slots where no register has a reserved slot or a
-- fixed one.
use llvm_mctoll.Base.{
  ℕ, suc, ◌+◌, ◌<◌, ◌%◌, length, ◌≡◌, refl, sym, ap, ◌∙◌, none, List, [], ◌∷◌, ◌++◌, All, arith,
}
use mathlib.Core.List.{append_assoc, append-nil}
use llvm_mctoll.Base.Int.{ℤ, pos, ◌-ℤ◌}
use llvm_mctoll.Arm.Target.{Register}
use llvm_mctoll.Arm.Frame.Identify.{StackObject}
use llvm_mctoll.Arm.Prolog.Spill.{Spills, SpillTarget, find_slot, reserved_or, allocate_slots}

module _ (st : SpillTarget) where
  -- The sizes of the registers' slots.
  abbrev pub total : List Register → ℕ
  total [] = 0
  total (r ∷ rs) = st.get_spill_size r + total rs

  abbrev pub slot_below : Register → ℕ → StackObject
  slot_below r offset = record {
    size = st.get_spill_size r;
    sp_offset = pos 0 -ℤ pos (offset + st.get_spill_size r);
  }

  -- Slots one below the other from an offset on, in the order of the registers.
  abbrev pub stacked : ℕ → List Register → List StackObject
  stacked offset [] = []
  stacked offset (r ∷ rs) = slot_below r offset ∷ stacked (offset + st.get_spill_size r) rs

  -- The registers with the indices of their slots, counted from the objects that are there.
  abbrev pub indexed : ℕ → List Register → List (Register × ℤ)
  indexed n [] = []
  indexed n (r ∷ rs) = (r, pos n) ∷ indexed (suc n) rs

  abbrev pub NoOwnSlot : Register → Type 0
  NoOwnSlot r =
      (st.has_reserved_spill_slot r ≡ none) × (find_slot r st.callee_saved_spill_slots ≡ none)

  wrap : (n : ℕ) → n < 4294967296 → n % 4294967296 ≡ n
  wrap n h = omega (arith, h)

  abbrev grown : Register → ℕ → Spills → Spills
  grown r offset sp = record sp {
    objects = sp.objects ++ slot_below r offset ∷ [];
    saved = sp.saved ++ (r, pos (length sp.objects)) ∷ [];
  }

  one_slot :
      (r : Register) (offset : ℕ) (sp : Spills)
      → NoOwnSlot r
      → offset + st.get_spill_size r < 4294967296
      → reserved_or st r (st.has_reserved_spill_slot r) offset sp
        ≡ (offset + st.get_spill_size r, grown r offset sp)
  one_slot r offset sp h fits = rw (h.0, h.1, wrap (offset + st.get_spill_size r) fits) refl

  length_snoc : {A : Type 0} (xs : List A) (x : A) → length (xs ++ x ∷ []) ≡ suc (length xs)
  length_snoc [] x = refl
  length_snoc (y ∷ xs) x = ap suc (length_snoc xs x)

  allocate_from :
      (rs : List Register) (offset : ℕ) (sp : Spills)
      → All NoOwnSlot rs
      → offset + total rs < 4294967296
      → ((allocate_slots st rs offset sp).objects ≡ sp.objects ++ stacked offset rs)
        × ((allocate_slots st rs offset sp).saved ≡ sp.saved ++ indexed (length sp.objects) rs)
  unfolding allocate_slots
  allocate_from [] offset sp h fits = (sym (append-nil sp.objects), sym (append-nil sp.saved))
  allocate_from (r ∷ rs) offset sp h fits =
      let rest =
        allocate_from rs (offset + st.get_spill_size r) (grown r offset sp) h.1
          (omega (arith, fits)) in
      let step : allocate_slots st (r ∷ rs) offset sp
          ≡ allocate_slots st rs (offset + st.get_spill_size r) (grown r offset sp) =
        ap (λ p. allocate_slots st rs p.0 p.1) (one_slot r offset sp h.0 (omega (arith, fits))) in
      (
        ap (λ x. x.objects) step
            ∙ rest.0
            ∙ append_assoc sp.objects (slot_below r offset ∷ [])
                (stacked (offset + st.get_spill_size r) rs),
        ap (λ x. x.saved) step
            ∙ rest.1
            ∙ ap (λ n. (sp.saved ++ (r, pos (length sp.objects)) ∷ []) ++ indexed n rs)
                (length_snoc sp.objects (slot_below r offset))
            ∙ append_assoc sp.saved ((r, pos (length sp.objects)) ∷ [])
                (indexed (suc (length sp.objects)) rs),
      )

  -- Where no saved register has a slot of its own and the sizes add up to less than 2 ^ 32, the slots
  -- follow the objects of the frame in the order of the registers, each one right below the one
  -- before it, the first one below 0: they do not overlap, and each register is recorded with the
  -- index of its slot.
  pub allocate_slots-stacked :
      (rs : List Register) (sp : Spills)
      → All NoOwnSlot rs
      → total rs < 4294967296
      → ((allocate_slots st rs 0 sp).objects ≡ sp.objects ++ stacked 0 rs)
        × ((allocate_slots st rs 0 sp).saved ≡ sp.saved ++ indexed (length sp.objects) rs)
  allocate_slots-stacked rs sp h fits = allocate_from rs 0 sp h (omega (arith, fits))
