-- ===== src/Documents/Keys/Separate.antt =====
-- Which file names are accepted, and that the keys of different users are apart.
use Prim.Native.Char.{code}
use Prim.Native.String.{◌++◌ as ◌<>◌}
use Prim.Native.String.append
use mathlib.Core.List.{append_assoc}
use eaistack.Base.{
  ℕ, String, Bool, true, false, not, ◌||◌, List, [], ◌∷◌, ◌++◌, contains, ◌==◌, nat_eq, list_eq,
  string_eq, ◌≡◌, ◌≢◌, ◌↔◌, refl, ap, ◌∙◌, sym, subst, arith, Bool-cases, inl, inr, eq_of_beq,
  beq_self,
}
use eaistack.Base.Text.{
  Text, codes, join, split_on, IsFreeOf, split_on-join, split_on-append, split_on-free,
  codes-injective,
}
use eaistack.Base.Result.{ok, >>-ok_iff, raise_if-ok_iff}
use eaistack.Documents.Keys.{
  empty_filename, path_separator, traversal, add_component, collapse, initial_slashes, or_dot,
  normpath, build_object_key, is_prefix, key_belongs_to_user,
}

pub codes-append : (s t : String) → codes (s <> t) ≡ codes s ++ codes t
codes-append String.[] t = ap codes (append.nil t)
codes-append (String.◌∷◌ c s) t =
    ap codes (append.cons c s t) ∙ ap (λ u. code c ∷ u) (codes-append s t)

-- The three segments of a key.
segments : String → String → String → List Text
segments user_id kb_id filename = codes user_id ∷ codes kb_id ∷ codes filename ∷ []

codes_of_key :
    (u k f : String) → codes (u <> "/" <> k <> "/" <> f) ≡ join (b'/' ∷ []) (segments u k f)
unfolding join segments
codes_of_key u k f =
    rw
      (
        codes-append u ("/" <> k <> "/" <> f),
        codes-append "/" (k <> "/" <> f),
        codes-append k ("/" <> f),
        codes-append "/" f,
      )
      refl

-- A segment that holds no slash.
abbrev pub IsSegment : String → Type 0
IsSegment s = IsFreeOf b'/' (codes s)

split_key :
    (u k f : String)
    → IsSegment u
    → IsSegment k
    → IsSegment f
    → split_on b'/' (codes (u <> "/" <> k <> "/" <> f)) ≡ segments u k f
unfolding segments
split_key u k f hu hk hf =
    ap (split_on b'/') (codes_of_key u k f)
    ∙ split_on-join b'/' (codes u) (codes k ∷ codes f ∷ []) (hu, (hk, (hf, tt)))

free-of-contains : (c : ℕ) (s : Text) → contains s c ≡ false → IsFreeOf c s
unfolding contains
free-of-contains c [] h = tt
free-of-contains c (d ∷ s) h = (ground arith, free-of-contains c s (ground arith))

no_slashes : (f : Text) → IsFreeOf b'/' f → initial_slashes f ≡ []
unfolding initial_slashes
no_slashes [] h = refl
no_slashes (c ∷ []) h = rw h.0 refl
no_slashes (c ∷ d ∷ []) h = rw h.0 refl
no_slashes (c ∷ d ∷ e ∷ s) h = rw h.0 refl

collapse_one :
    (c : ℕ) (s : Text) → or_dot (join (b'/' ∷ []) (collapse false [] ((c ∷ s) ∷ []))) ≡ c ∷ s
unfolding collapse add_component join
collapse_one c s = elim (Bool-cases ((c ∷ s) == codes ".")) [
  | inl dot ↦ rw dot (sym (eq_of_beq (c ∷ s) (codes ".") dot))
  | inr named ↦ rw named refl
]

-- A name without a slash is its own normal form.
normpath_one : (f : Text) → f ≢ [] → IsFreeOf b'/' f → normpath f ≡ f
unfolding normpath
normpath_one [] h free = absurd (h refl)
normpath_one (c ∷ s) h free =
    rw (no_slashes (c ∷ s) free, split_on-free b'/' (c ∷ s) free) (collapse_one c s)

-- What the check lets through: a name that is not empty, holds neither slash nor backslash and is not
-- `..`.
abbrev pub IsFilename : String → Type 0
IsFilename f =
    ((f == "") ≡ false)
    × ((contains (codes f) b'/' || contains (codes f) 92) ≡ false)
    × ((f == "..") ≡ false)

nonempty_codes : (f : String) → (f == "") ≡ false → codes f ≢ []
nonempty_codes String.[] h e = cc
nonempty_codes (String.◌∷◌ c f) h e = cc

normal-of-IsFilename : (f : String) → IsFilename f → (normpath (codes f) == codes f) ≡ true
normal-of-IsFilename f (named, flat, below) =
    rw
      (normpath_one (codes f) (nonempty_codes f named)
        (free-of-contains b'/' (codes f) (ground arith)))
      (beq_self (codes f))

or_false : (a b : Bool) → (a || b) ≡ false → b ≡ false
or_false a b h = ground arith

builds :
    (u k f key : String)
    → IsFilename f × (u <> "/" <> k <> "/" <> f ≡ key)
    → build_object_key u k f ≡ ok key
unfolding build_object_key
builds u k f key ((named, flat, below), e) =
    let normal = normal-of-IsFilename f (named, flat, below) in
    rw (named, flat, normal, below, e) refl

accepted :
    (u k f key : String)
    → build_object_key u k f ≡ ok key
    → IsFilename f × (u <> "/" <> k <> "/" <> f ≡ key)
unfolding build_object_key
accepted u k f key h =
    let (named, h1) = (>>-ok_iff _ _ key).0 h in
    let (flat, h2) = (>>-ok_iff _ _ key).0 h1 in
    let (normal, built) = (>>-ok_iff _ _ key).0 h2 in
    let below =
      (raise_if-ok_iff (not (normpath (codes f) == codes f) || f == "..") traversal).0 normal in
    (
      (
        (raise_if-ok_iff (f == "") empty_filename).0 named,
        (raise_if-ok_iff (contains (codes f) b'/' || contains (codes f) 92) path_separator).0 flat,
        or_false _ _ below,
      ),
      cc,
    )

-- A key is built exactly for a file name that is not empty, holds neither slash nor backslash and is not
-- `..`, and it consists of the user, the document and the name.
pub build_object_key-ok_iff :
    (user_id kb_id filename key : String)
    → (build_object_key user_id kb_id filename ≡ ok key)
      ↔ (IsFilename filename × (user_id <> "/" <> kb_id <> "/" <> filename ≡ key))
build_object_key-ok_iff user_id kb_id filename key =
    (accepted user_id kb_id filename key, builds user_id kb_id filename key)

filename-IsSegment : (f : String) → IsFilename f → IsSegment f
filename-IsSegment f (named, flat, below) = free-of-contains b'/' (codes f) (ground arith)

prefix_rest : (p s : Text) → is_prefix p s ≡ true → (r : Text) × (s ≡ p ++ r)
unfolding is_prefix
prefix_rest [] s h = (s, refl)
prefix_rest (c ∷ p) [] h = cc
prefix_rest (c ∷ p) (d ∷ s) h =
    let head : (c == d) ≡ true = ground arith in
    let (r, e) = prefix_rest p s (ground arith) in (r, cc (eq_of_beq c d head, e))

is_prefix-append : (p r : Text) → is_prefix p (p ++ r) ≡ true
unfolding is_prefix
is_prefix-append [] r = refl
is_prefix-append (c ∷ p) r = rw (beq_self c, is_prefix-append p r) refl

pub owns : (u k f : String) → key_belongs_to_user (u <> "/" <> k <> "/" <> f) u ≡ true
unfolding key_belongs_to_user
owns u k f =
    let key : codes (u <> "/" <> k <> "/" <> f) ≡ codes (u <> "/") ++ codes (k <> "/" <> f) =
      codes-append u ("/" <> k <> "/" <> f)
      ∙ ap (λ t. codes u ++ t) (codes-append "/" (k <> "/" <> f))
      ∙ sym (append_assoc (codes u) (b'/' ∷ []) (codes (k <> "/" <> f)))
      ∙ ap (λ t. t ++ codes (k <> "/" <> f)) (sym (codes-append u "/")) in
    rw key (is_prefix-append (codes (u <> "/")) (codes (k <> "/" <> f)))

same_segments :
    (u v k l f g : String) → segments u k f ≡ segments v l g → (u ≡ v) × (k ≡ l) × (f ≡ g)
unfolding segments
same_segments u v k l f g h =
    (codes-injective u v (cc), codes-injective k l (cc), codes-injective f g (cc))

key_path :
    (u v k l f g : String)
    → u ≡ v
    → k ≡ l
    → f ≡ g
    → u <> "/" <> k <> "/" <> f ≡ v <> "/" <> l <> "/" <> g
key_path u v k l f g a b c = cc

owner :
    (u v k f : String)
    → IsSegment v
    → key_belongs_to_user (u <> "/" <> k <> "/" <> f) v ≡ true
    → split_on b'/' (codes (u <> "/" <> k <> "/" <> f)) ≡ segments u k f
    → u ≡ v
unfolding key_belongs_to_user segments
owner u v k f hv h split =
    let key = codes (u <> "/" <> k <> "/" <> f) in
    let (r, e) = prefix_rest (codes (v <> "/")) key h in
    let whole : key ≡ codes v ++ b'/' ∷ r =
      e ∙ ap (λ t. t ++ r) (codes-append v "/") ∙ append_assoc (codes v) (b'/' ∷ []) r in
    let parts : split_on b'/' key ≡ codes v ∷ split_on b'/' r =
      ap (split_on b'/') whole
      ∙ split_on-append b'/' (codes v) r
      ∙ ap (λ ws. ws ++ split_on b'/' r) (split_on-free b'/' (codes v) hv) in
    codes-injective u v (cc (split, parts))

-- Where no id holds a slash, a key that was built belongs to a user exactly if it was built for that
-- user, and keys for different users, documents or names differ.
pub keys_are_separate :
    (u v k l f g key other : String)
    → IsSegment u
    → IsSegment v
    → IsSegment k
    → IsSegment l
    → build_object_key u k f ≡ ok key
    → build_object_key v l g ≡ ok other
    → ((key_belongs_to_user key v ≡ true) ↔ (u ≡ v))
      × ((key ≡ other) ↔ ((u ≡ v) × (k ≡ l) × (f ≡ g)))
keys_are_separate u v k l f g key other hu hv hk hl hf hg =
    let (named, built) = (build_object_key-ok_iff u k f key).0 hf in
    let (named', built') = (build_object_key-ok_iff v l g other).0 hg in
    let split = split_key u k f hu hk (filename-IsSegment f named) in
    let split' = split_key v l g hv hl (filename-IsSegment g named') in
    (
      subst (λ x. (key_belongs_to_user x v ≡ true) ↔ (u ≡ v)) built
          (
            (λ h. owner u v k f hv h split),
            (λ same.
                subst (λ x. key_belongs_to_user (u <> "/" <> k <> "/" <> f) x ≡ true) same
                  (owns u k f)),
          ),
      (
        (λ same.
            let parts =
              sym split ∙ ap (λ x. split_on b'/' (codes x)) (built ∙ same ∙ sym built') ∙ split' in
            same_segments u v k l f g parts),
        (λ same. sym built ∙ key_path u v k l f g same.0 same.1 same.2 ∙ built'),
      ),
    )
