-- ===== src/Vsa/Aloc.antt =====
-- AlocType: a register, a global address or a local address. The union of the register and the
-- address is one 64-bit number, of which the register is the low half.
use llvm_mctoll.Base.{ℕ, ◌%◌, ◌^◌, ◌==◌, ◌≡◌, Bool, true, false, ◌&&◌, arith}

pub data AlocTypeId : Type 0 where
  register_ty global_mem_loc_ty local_mem_loc_ty : AlocTypeId

pub record AlocType : Type 0 where
  pub id : AlocTypeId
  pub address : ℕ

abbrev pub get_register : AlocType → ℕ
get_register a = a.address % 2 ^ 32

-- AlocType(Reg)
abbrev pub register_aloc : ℕ → AlocType
register_aloc reg = record { id = register_ty; address = reg }

-- AlocType(ID, Address)
abbrev pub address_aloc : AlocTypeId → ℕ → AlocType
address_aloc id address = record { id = id; address = address }

abbrev pub same_id : AlocTypeId → AlocTypeId → Bool
same_id register_ty register_ty = true
same_id global_mem_loc_ty global_mem_loc_ty = true
same_id local_mem_loc_ty local_mem_loc_ty = true
same_id _ _ = false

abbrev pub same_payload : AlocTypeId → AlocType → AlocType → Bool
same_payload register_ty x a = get_register x == get_register a
same_payload global_mem_loc_ty x a = x.address == a.address
same_payload local_mem_loc_ty x a = x.address == a.address

-- operator==
unfoldable pub eq_aloc : AlocType → AlocType → Bool
eq_aloc x a = same_id x.id a.id && same_payload x.id x a

eq_refl : (n : ℕ) → (n == n) ≡ true
eq_refl n = ground arith

id_refl : (i : AlocTypeId) (x : AlocType) → (same_id i i && same_payload i x x) ≡ true
id_refl register_ty x = eq_refl (get_register x)
id_refl global_mem_loc_ty x = eq_refl x.address
id_refl local_mem_loc_ty x = eq_refl x.address

pub eq_aloc_refl : (x : AlocType) → eq_aloc x x ≡ true
unfolding eq_aloc
eq_aloc_refl x = id_refl x.id x
