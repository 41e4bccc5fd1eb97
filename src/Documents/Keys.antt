-- ===== src/Documents/Keys.antt =====
-- backend/app/storage/object_keys.py: the keys of stored objects.
pub mod Separate
use Prim.Native.Char.{code}
use Prim.Native.String.{◌++◌ as ◌<>◌}
use Prim.Native.String.append
use mathlib.Core.List.{append_assoc}
use eaistack.Base.{
  ℕ, String, Bool, true, false, not, ◌&&◌, ◌||◌, List, [], ◌∷◌, ◌++◌, reverse, any, contains,
  if◌then◌else◌, ◌==◌, nat_eq, list_eq, string_eq, ◌≡◌, ◌≢◌, ◌↔◌, refl, ap, ◌∙◌, sym, subst, arith,
  Bool-cases, inl, inr, eq_of_beq, beq_self,
}
use eaistack.Base.Text.{
  Text, codes, join, split_on, IsFreeOf, split_on-join, split_on-append, split_on-free,
  codes-injective,
}
use eaistack.Base.Result.{Result, ok, err, raise_if, ◌>>◌, >>-ok_iff, raise_if-ok_iff}

pub data KeyError : Type 0 where
  empty_filename path_separator traversal : KeyError

-- The component goes behind those before it, which are held last first.
unfoldable pub add_component : Bool → Text → List Text → List Text
add_component absolute comp [] = if absolute && comp == codes ".." then [] else comp ∷ []
add_component absolute comp (last ∷ before) =
    if comp == codes ".." && not (last == codes "..") then before else comp ∷ last ∷ before

unfoldable pub collapse : Bool → List Text → List Text → List Text
collapse absolute kept [] = reverse kept
collapse absolute kept (comp ∷ comps) =
    if comp == [] || comp == codes "."
    then collapse absolute kept comps
    else collapse absolute (add_component absolute comp kept) comps

-- The slashes that a path keeps in front: two stay two, more become one.
unfoldable pub initial_slashes : Text → Text
initial_slashes [] = []
initial_slashes (c ∷ []) = if c == b'/' then c ∷ [] else []
initial_slashes (c ∷ d ∷ []) = if c == b'/' then if d == b'/' then c ∷ d ∷ [] else c ∷ [] else []
initial_slashes (c ∷ d ∷ e ∷ path) =
    if c == b'/' then if d == b'/' && not (e == b'/') then c ∷ d ∷ [] else c ∷ [] else []

abbrev pub or_dot : Text → Text
or_dot [] = codes "."
or_dot (c ∷ s) = c ∷ s

-- `posixpath.normpath`
unfoldable pub normpath : Text → Text
normpath path =
    let slashes = initial_slashes path in
    or_dot (slashes ++ join (b'/' ∷ []) (collapse (not (slashes == [])) [] (split_on b'/' path)))

unfoldable pub build_object_key : String → String → String → Result KeyError String
build_object_key user_id kb_id filename = do
  raise_if (filename == "") empty_filename
  raise_if (contains (codes filename) b'/' || contains (codes filename) 92) path_separator
  raise_if (not (normpath (codes filename) == codes filename) || filename == "..") traversal
  ok (user_id <> "/" <> kb_id <> "/" <> filename)

unfoldable pub is_prefix : Text → Text → Bool
is_prefix [] s = true
is_prefix (c ∷ p) [] = false
is_prefix (c ∷ p) (d ∷ s) = c == d && is_prefix p s

unfoldable pub key_belongs_to_user : String → String → Bool
key_belongs_to_user storage_key user_id = is_prefix (codes (user_id <> "/")) (codes storage_key)
