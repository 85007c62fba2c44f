-- ===== src/Filter/Types.antt =====
-- FunctionFilter::getPrimitiveDataType. A string is the list of its bytes. `none` is the failed
-- assertion that the string names a type.
use mathlib.Core.Bool.{true≢false}
use llvm_mctoll.Base.{
  ℕ, ◌==◌, ◌&&◌, if◌then◌else◌, Bool, true, false, ◌≡◌, ◌≢◌, refl, ap, sym, ◌∙◌, arith, Option,
  none, some, ◌>>=◌, List, [], ◌∷◌, Ensures, Ensures-bind, Ensures-some, done,
}

-- LLVM's types, as far as the function makes them.
pub data PrimitiveType : Type 0 where
  void_type int1_type int8_type int16_type int32_type int64_type : PrimitiveType
  float_type double_type x86_fp80_type : PrimitiveType

pub data DataType : Type 0 where
  plain_type : PrimitiveType → DataType
  pointer_to : PrimitiveType → DataType

-- TypeStr.startswith
abbrev pub starts_with : List ℕ → List ℕ → Bool
starts_with [] s = true
starts_with (p ∷ ps) [] = false
starts_with (p ∷ ps) (c ∷ s) = (p == c) && starts_with ps s

-- TypeStr.find_first_of("*") != npos
abbrev pub has_star : List ℕ → Bool
has_star [] = false
has_star (c ∷ s) = let rest = has_star s in if c == 42 then true else rest

-- The chain of tests: "void", "i1", "i8", "i16", "i32", "i64", "float", "double", "ldouble".
unfoldable pub get_base_type : List ℕ → Option PrimitiveType
get_base_type s =
    if starts_with (118 ∷ 111 ∷ 105 ∷ 100 ∷ []) s
    then some void_type
    else if starts_with (105 ∷ 49 ∷ []) s
    then some int1_type
    else if starts_with (105 ∷ 56 ∷ []) s
    then some int8_type
    else if starts_with (105 ∷ 49 ∷ 54 ∷ []) s
    then some int16_type
    else if starts_with (105 ∷ 51 ∷ 50 ∷ []) s
    then some int32_type
    else if starts_with (105 ∷ 54 ∷ 52 ∷ []) s
    then some int64_type
    else if starts_with (102 ∷ 108 ∷ 111 ∷ 97 ∷ 116 ∷ []) s
    then some float_type
    else if starts_with (100 ∷ 111 ∷ 117 ∷ 98 ∷ 108 ∷ 101 ∷ []) s
    then some double_type
    else if starts_with (108 ∷ 100 ∷ 111 ∷ 117 ∷ 98 ∷ 108 ∷ 101 ∷ []) s
    then some x86_fp80_type
    else none

abbrev pub pointer_type_of : PrimitiveType → DataType
pointer_type_of void_type = pointer_to int8_type
pointer_type_of t = pointer_to t

unfoldable pub get_primitive_data_type : List ℕ → Option DataType
get_primitive_data_type s = do
  t ← get_base_type s
  some (if has_star s then pointer_type_of t else plain_type t)

-- "i16" begins with "i1", which is tested before it.
i16-i1 :
    (s : List ℕ) → starts_with (105 ∷ 49 ∷ 54 ∷ []) s ≡ true → starts_with (105 ∷ 49 ∷ []) s ≡ true
i16-i1 [] h = cc
i16-i1 (a ∷ []) h = ground arith
i16-i1 (a ∷ b ∷ s) h = ground arith

chain :
    (a b c d e f g h i : Bool)
    → (d ≡ true → b ≡ true)
    → (if a
        then some void_type
        else if b
        then some int1_type
        else if c
        then some int8_type
        else if d
        then some int16_type
        else if e
        then some int32_type
        else if f
        then some int64_type
        else if g
        then some float_type
        else if h
        then some double_type
        else if i
        then some x86_fp80_type
        else none)
      ≢ some int16_type
chain true b c d e f g h i k x = cc
chain false true c d e f g h i k x = cc
chain false false true d e f g h i k x = cc
chain false false false true e f g h i k x = true≢false (sym (k refl))
chain false false false false true f g h i k x = cc
chain false false false false false true g h i k x = cc
chain false false false false false false true h i k x = cc
chain false false false false false false false true i k x = cc
chain false false false false false false false false true k x = cc
chain false false false false false false false false false k x = cc

get_base_type-int16_type : (s : List ℕ) → get_base_type s ≢ some int16_type
unfolding get_base_type
get_base_type-int16_type s = chain _ _ _ _ _ _ _ _ _ (i16-i1 s)

pointer_type_of-int16_type :
    (t : PrimitiveType) (star : Bool)
    → t ≢ int16_type
    → ((if star then pointer_type_of t else plain_type t) ≢ plain_type int16_type)
      × ((if star then pointer_type_of t else plain_type t) ≢ pointer_to int16_type)
pointer_type_of-int16_type int16_type star h = absurd (h refl)
pointer_type_of-int16_type t true h = ground arith
pointer_type_of-int16_type t false h = ground arith

Ensures-get_primitive_data_type :
    (s : List ℕ)
    → Ensures
        (λ d. (d ≢ plain_type int16_type) × (d ≢ pointer_to int16_type))
        (get_primitive_data_type s)
unfolding get_primitive_data_type
Ensures-get_primitive_data_type s = Ensures-bind _ _ λ t e.
    done
      (pointer_type_of-int16_type t (has_star s) (λ i. get_base_type-int16_type s (e ∙ ap some i)))

-- No string is given the type i16, or a pointer to it: in particular "i16" and "i16*" are not.
pub get_primitive_data_type-int16_type :
    (s : List ℕ) (d : DataType)
    → get_primitive_data_type s ≡ some d
    → (d ≢ plain_type int16_type) × (d ≢ pointer_to int16_type)
get_primitive_data_type-int16_type s d e = Ensures-some (Ensures-get_primitive_data_type s) e
