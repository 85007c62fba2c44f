-- ===== src/Arm/Frame/Elements.antt =====
-- The map of the stack elements: the order of its keys, and which keys it has.
use llvm_mctoll.Base.{
  ℕ, ◌+◌, ltb, Bool, true, false, ◌≡◌, ◌≢◌, refl, none, some, List, [], ◌∷◌, Bool-cases, inl, inr,
  length, get_elem?, All, arith,
}
use llvm_mctoll.Base.Int.{ℤ, ltb_ℤ}
use llvm_mctoll.Arm.Target.{Operand}
use llvm_mctoll.Arm.Builder.{eqb_ℤ}
use llvm_mctoll.Arm.Frame.Build.{add_element, slot_index, place_operands}

-- The keys of the map descend.
abbrev pub Descending : List (ℤ × ℕ) → Type 0
Descending [] = Unit
Descending ((k, s) ∷ es) = All (λ e. ltb_ℤ e.0 k ≡ true) es × Descending es

ltb_ℤ-trans : (a b c : ℤ) → ltb_ℤ a b ≡ true → ltb_ℤ b c ≡ true → ltb_ℤ a c ≡ true
ltb_ℤ-trans a b c h k = ground arith

ltb_ℤ-rest : (a b : ℤ) → eqb_ℤ a b ≡ false → ltb_ℤ b a ≡ false → ltb_ℤ a b ≡ true
ltb_ℤ-rest a b h k = ground arith

All-below :
    (a b : ℤ) (es : List (ℤ × ℕ))
    → ltb_ℤ a b ≡ true
    → All (λ e. ltb_ℤ e.0 a ≡ true) es
    → All (λ e. ltb_ℤ e.0 b ≡ true) es
All-below a b [] h k = tt
All-below a b (e ∷ es) h k = (ltb_ℤ-trans e.0 a b k.0 h, All-below a b es h k.1)

add_element-below :
    (b off : ℤ) (size : ℕ) (es : List (ℤ × ℕ))
    → ltb_ℤ off b ≡ true
    → All (λ e. ltb_ℤ e.0 b ≡ true) es
    → All (λ e. ltb_ℤ e.0 b ≡ true) (add_element off size es)
add_element-below b off size [] h k = (h, tt)
add_element-below b off size ((c, s) ∷ es) h k = elim (Bool-cases (eqb_ℤ off c)) [
  | inl e ↦ rw e k
  | inr n ↦ elim (Bool-cases (ltb_ℤ c off)) [
    | inl l ↦ rw (n, l) (h, k)
    | inr g ↦ rw (n, g) (k.0, add_element-below b off size es h k.1)
  ]
]

pub add_element-Descending :
    (off : ℤ) (size : ℕ) (es : List (ℤ × ℕ)) → Descending es → Descending (add_element off size es)
add_element-Descending off size [] h = (tt, tt)
add_element-Descending off size ((c, s) ∷ es) h = elim (Bool-cases (eqb_ℤ off c)) [
  | inl e ↦ rw e h
  | inr n ↦ elim (Bool-cases (ltb_ℤ c off)) [
    | inl l ↦ rw (n, l) ((l, All-below c off es l h.0), h)
    | inr g ↦
        rw (n, g)
          (
            add_element-below c off size es (ltb_ℤ-rest off c n g) h.0,
            add_element-Descending off size es h.1,
          )
  ]
]

-- An offset that is a key of the map.
abbrev pub HasSlot : ℤ → ℕ → List (ℤ × ℕ) → Type 0
HasSlot k n es = (i : ℕ) × (slot_index k n es ≡ some i)

HasSlot-shift : (k : ℤ) (n m : ℕ) (es : List (ℤ × ℕ)) → HasSlot k n es → HasSlot k m es
HasSlot-shift k n m [] h = cc
HasSlot-shift k n m ((c, s) ∷ es) h = elim (Bool-cases (eqb_ℤ k c)) [
  | inl e ↦ rw e (_, refl)
  | inr e ↦ rw e (HasSlot-shift k (n + 1) (m + 1) es (rw e at h))
]

eqb_ℤ-refl : (a : ℤ) → eqb_ℤ a a ≡ true
eqb_ℤ-refl a = ground arith

pub add_element-HasSlot :
    (off : ℤ) (size n : ℕ) (es : List (ℤ × ℕ)) → HasSlot off n (add_element off size es)
add_element-HasSlot off size n [] = rw (eqb_ℤ-refl off) (_, refl)
add_element-HasSlot off size n ((c, s) ∷ es) = elim (Bool-cases (eqb_ℤ off c)) [
  | inl e ↦ rw (e, e) (_, refl)
  | inr e ↦ elim (Bool-cases (ltb_ℤ c off)) [
    | inl l ↦ rw (e, l, eqb_ℤ-refl off) (_, refl)
    | inr g ↦ rw (e, g, e) (add_element-HasSlot off size (n + 1) es)
  ]
]

pub add_element-keeps :
    (k off : ℤ) (size n : ℕ) (es : List (ℤ × ℕ))
    → HasSlot k n es
    → HasSlot k n (add_element off size es)
add_element-keeps k off size n [] h = cc
add_element-keeps k off size n ((c, s) ∷ es) h = elim (Bool-cases (eqb_ℤ off c)) [
  | inl e ↦ rw e h
  | inr e ↦ elim (Bool-cases (ltb_ℤ c off)) [
    | inl l ↦ elim (Bool-cases (eqb_ℤ k off)) [
      | inl f ↦ rw (e, l, f) (_, refl)
      | inr f ↦ rw (e, l, f) (HasSlot-shift k n (n + 1) ((c, s) ∷ es) h)
    ]
    | inr g ↦ elim (Bool-cases (eqb_ℤ k c)) [
      | inl f ↦ rw (e, g, f) (_, refl)
      | inr f ↦ rw (e, g, f) (add_element-keeps k off size (n + 1) es (rw f at h))
    ]
  ]
]

none≢some : {A : Type 0} {a : A} → none ≢ some a
none≢some e = cc

-- The operands of an instruction with an offset of the frame can be put into place.
pub place_operands-some :
    (half : Bool) (i : ℕ) (mos : List Operand)
    → ltb (length mos) 3 ≡ false
    → (half ≡ true → (mo : Operand) × (get_elem? mos 3 ≡ some mo))
    → (mos' : List Operand) × (place_operands half i mos ≡ some mos')
place_operands-some half i [] l h = cc
place_operands-some half i (a ∷ []) l h = cc
place_operands-some half i (a ∷ b ∷ []) l h = cc
place_operands-some true i (a ∷ b ∷ c ∷ []) l h = absurd (none≢some (h refl).1)
place_operands-some true i (a ∷ b ∷ c ∷ d ∷ mos) l h = (_, refl)
place_operands-some false i (a ∷ b ∷ c ∷ mos) l h = (_, refl)
