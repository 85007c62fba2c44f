-- ===== src/ModuleRaiser/Registry.antt =====
-- ModuleRaiserRegistry of Raiser/ModuleRaiser.cpp. An architecture is a number, Triple::ArchType; a
-- raiser is a pointer with the architecture that it was made for.
use llvm_mctoll.Base.{
  ℕ, ◌==◌, ==_iff, if◌then◌else◌, Bool, true, false, ◌≡◌, ◌↔◌, refl, Option, none, some, List, [],
  ◌∷◌, ◌++◌, Bool-cases, inl, inr,
}

pub record RegisteredRaiser : Type 0 where
  pub address : ℕ
  pub arch_type : ℕ

unfoldable pub is_supported_arch : List RegisteredRaiser → ℕ → Bool
is_supported_arch [] arch = false
is_supported_arch (m ∷ ms) arch =
    let rest = is_supported_arch ms arch in if m.arch_type == arch then true else rest

-- `none` is the failed assertion that the architecture is supported.
unfoldable pub get_module_raiser : List RegisteredRaiser → ℕ → Option RegisteredRaiser
get_module_raiser [] arch = none
get_module_raiser (m ∷ ms) arch =
    let rest = get_module_raiser ms arch in if m.arch_type == arch then some m else rest

unfoldable pub register_module_raiser :
    List RegisteredRaiser → RegisteredRaiser → List RegisteredRaiser
register_module_raiser registry m = registry ++ m ∷ []

-- An architecture is supported if and only if getModuleRaiser returns a raiser, which is then a
-- raiser of that architecture.
pub is_supported_arch-get_module_raiser :
    (registry : List RegisteredRaiser) (arch : ℕ)
    → (is_supported_arch registry arch ≡ true)
      ↔ ((m : RegisteredRaiser) × (get_module_raiser registry arch ≡ some m) × (m.arch_type ≡ arch))
unfolding is_supported_arch get_module_raiser
is_supported_arch-get_module_raiser [] arch = (λ e. cc, λ (m, e, k). cc)
is_supported_arch-get_module_raiser (m ∷ ms) arch = elim (Bool-cases (m.arch_type == arch)) [
  | inl e ↦ rw e (λ _. (m, refl, (==_iff _ _).0 e), λ _. refl)
  | inr n ↦ rw n (is_supported_arch-get_module_raiser ms arch)
]

-- A raiser that is registered is returned for its architecture, unless there was one before it,
-- which stays; for each other architecture nothing changes.
pub register_module_raiser-get_module_raiser :
    (registry : List RegisteredRaiser) (m : RegisteredRaiser) (arch : ℕ)
    → get_module_raiser (register_module_raiser registry m) arch ≡ (
        if is_supported_arch registry arch
        then get_module_raiser registry arch
        else if m.arch_type == arch
        then some m
        else none)
unfolding is_supported_arch get_module_raiser register_module_raiser
register_module_raiser-get_module_raiser [] m arch = refl
register_module_raiser-get_module_raiser (x ∷ ms) m arch = elim (Bool-cases (x.arch_type == arch)) [
  | inl e ↦ rw e refl
  | inr n ↦ rw n (register_module_raiser-get_module_raiser ms m arch)
]
