-- ===== src/Rpc/Types.antt =====
-- What reflect tells of types and methods, in reflect/typeReflectCall.go.
use go_util.Prelude.{
  ℕ, ◌≡◌, refl, ap, Bool, true, false, ◌&&◌, ◌||◌, List, [], ◌∷◌, inl, inr, Bool-cases,
}
use go_util.Prelude.Dict.{Key, same_bytes, same_bytes→eq, same_bytes_refl}

-- A pointer type, or a type with a name and the path of its package (both may be empty).
pub data GoType : Type 0 where
  pointer : GoType → GoType
  plain : List ℕ → List ℕ → GoType

unfoldable pub same_type : GoType → GoType → Bool
same_type (pointer a) (pointer b) = same_type a b
same_type (pointer a) (plain name path) = false
same_type (plain name path) (pointer b) = false
same_type (plain name path) (plain name' path') = same_bytes name name' && same_bytes path path'

pub same_type→eq : (a b : GoType) → same_type a b ≡ true → a ≡ b
unfolding same_type
same_type→eq (pointer a) (pointer b) h = ap pointer (same_type→eq a b h)
same_type→eq (pointer a) (plain name path) h = absurd (cc h)
same_type→eq (plain name path) (pointer b) h = absurd (cc h)
same_type→eq (plain name path) (plain name' path') h = elim (Bool-cases (same_bytes name name')) [
  | inl e ↦
      let names : name ≡ name' = same_bytes→eq name name' e in
      let paths : path ≡ path' = same_bytes→eq path path' (rw e at h) in cc (names, paths)
  | inr e ↦ absurd (cc (rw e at h))
]

pub same_type_refl : (a : GoType) → same_type a a ≡ true
unfolding same_type
same_type_refl (pointer a) = same_type_refl a
same_type_refl (plain name path) = rw (same_bytes_refl name, same_bytes_refl path) refl

instance abbrev pub type_key : Key GoType
type_key = record { same = same_type; same→eq = same_type→eq; same_refl = same_type_refl }

abbrev pub is_pointer : GoType → Bool
is_pointer (pointer t) = true
is_pointer (plain name path) = false

-- What the program asks of package unicode and reflect: whether the first letter of a name is upper
-- case, whether a type implements context.Context, and whether it is error.
pub record Reflection : Type 0 where
  pub starts_upper : List ℕ → Bool
  pub is_context : GoType → Bool
  pub is_error : GoType → Bool

abbrev pub is_empty : List ℕ → Bool
is_empty [] = true
is_empty (x ∷ xs) = false

unfoldable pub is_exported : Reflection → List ℕ → Bool
is_exported r name = r.starts_upper name

-- Pointers are followed first.
unfoldable pub is_exported_or_builtin_type : Reflection → GoType → Bool
is_exported_or_builtin_type r (pointer t) = is_exported_or_builtin_type r t
is_exported_or_builtin_type r (plain name path) = is_exported r name || is_empty path

-- reflect.Method: the path is empty for a method that is exported.
pub record Method : Type 0 where
  pub name : List ℕ
  pub pkg_path : List ℕ
  pub ins : List GoType
  pub outs : List GoType

abbrev pub is_exported_method : Method → Bool
is_exported_method m = is_empty m.pkg_path
