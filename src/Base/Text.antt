-- ===== src/Base/Text.antt =====
-- Text that the program walks, as its list of code points, with the methods of Python's `str` that
-- the program calls on it.
use Prim.Native.Char.{code}
use Prim.Native.Nat.{ℕ}
use Prim.Native.String.{String}
use mathlib.Core.Bool.{Bool, true, false, ◌&&◌, ◌||◌}
use mathlib.Core.List.{List, [], ◌∷◌, ◌++◌, reverse}
use mathlib.Core.Path.{◌≡◌, refl, ap, ap₂, ◌∙◌}
use text.Mathlib.TextEquality.{Char-path}
use mathlib.Core.Logic.{inl, inr}
use native.Mathlib.Omega.{arith}
use eaistack.Base.Tests.{leb, ◌==◌, nat_eq, if◌then◌else◌, Bool-cases, beq_self}

abbrev pub Text : Type 0
Text = List ℕ

abbrev pub codes : String → Text
codes String.[] = []
codes (String.◌∷◌ c s) = code c ∷ codes s

-- `str.isspace` of one character.
unfoldable pub is_space : ℕ → Bool
is_space c =
    (leb 9 c && leb c 13)
    || (leb 28 c && leb c 32)
    || c == 133
    || c == 160
    || c == 5760
    || (leb 8192 c && leb c 8202)
    || c == 8232
    || c == 8233
    || c == 8239
    || c == 8287
    || c == 12288

-- One more character in front of the first piece.
unfoldable pub push : ℕ → List Text → List Text
push c [] = (c ∷ []) ∷ []
push c (w ∷ ws) = (c ∷ w) ∷ ws

-- `text.split(sep)`
unfoldable pub split_on : ℕ → Text → List Text
split_on sep [] = [] ∷ []
split_on sep (c ∷ s) = if c == sep then [] ∷ split_on sep s else push c (split_on sep s)

unfoldable pub starts_blank : Text → Bool
starts_blank [] = true
starts_blank (c ∷ s) = is_space c

-- `text.split()`
unfoldable pub words : Text → List Text
words [] = []
words (c ∷ s) =
    if is_space c then words s else if starts_blank s then (c ∷ []) ∷ words s else push c (words s)

unfoldable pub lstrip : Text → Text
lstrip [] = []
lstrip (c ∷ s) = if is_space c then lstrip s else c ∷ s

-- `text.strip()`
unfoldable pub strip : Text → Text
strip s = reverse (lstrip (reverse (lstrip s)))

-- `sep.join(parts)`
unfoldable pub join : Text → List Text → Text
join sep [] = []
join sep (p ∷ []) = p
join sep (p ∷ q ∷ ps) = p ++ (sep ++ join sep (q ∷ ps))

-- Putting a character in front leaves the later pieces alone.
push-append :
    (c : ℕ) (w : Text) (us ws vs : List Text) → us ≡ w ∷ ws → push c (us ++ vs) ≡ push c us ++ vs
push-append c w us ws vs e = rw e (unfold push in refl)

split_on_pieces : (sep : ℕ) (s : Text) → (w : Text) × (ws : List Text) × (split_on sep s ≡ w ∷ ws)
unfolding split_on push
split_on_pieces sep [] = ([], [], refl)
split_on_pieces sep (c ∷ s) =
    let (w, ws, e) = split_on_pieces sep s in
    elim (Bool-cases (c == sep)) [
      | inl same ↦ ([], split_on sep s, rw same)
      | inr other ↦ (c ∷ w, ws, rw (other, e))
    ]

pub split_on-append :
    (sep : ℕ) (a b : Text) → split_on sep (a ++ sep ∷ b) ≡ split_on sep a ++ split_on sep b
unfolding split_on
split_on-append sep [] b = rw (beq_self sep) refl
split_on-append sep (c ∷ a) b =
    let (w, ws, e) = split_on_pieces sep a in
    ground (arith, split_on-append sep a b, push-append c w (split_on sep a) ws (split_on sep b) e)

words_pieces :
    (s : Text) → starts_blank s ≡ false → (w : Text) × (ws : List Text) × (words s ≡ w ∷ ws)
unfolding words starts_blank push
words_pieces [] h = cc
words_pieces (c ∷ s) h = elim (Bool-cases (starts_blank s)) [
  | inl blank ↦ (c ∷ [], words s, rw (h, blank))
  | inr more ↦ let (w, ws, e) = words_pieces s more in (c ∷ w, ws, rw (h, more, e))
]

starts_blank-append : (a b : Text) → starts_blank b ≡ true → starts_blank (a ++ b) ≡ starts_blank a
unfolding starts_blank
starts_blank-append [] b h = h
starts_blank-append (c ∷ a) b h = refl

-- Where a text goes on with a blank, its words are those of the two parts.
pub words-append : (a b : Text) → starts_blank b ≡ true → words (a ++ b) ≡ words a ++ words b
unfolding words
words-append [] b h = refl
words-append (c ∷ a) b h = elim (Bool-cases (starts_blank a)) [
  | inl blank ↦ ground (arith, words-append a b h, starts_blank-append a b h)
  | inr more ↦
      let (w, ws, e) = words_pieces a more in
      ground (
        arith,
        words-append a b h,
        starts_blank-append a b h,
        push-append c w (words a) ws (words b) e,
      )
]

pub codes-injective : (s t : String) → codes s ≡ codes t → s ≡ t
codes-injective String.[] String.[] h = refl
codes-injective String.[] (String.◌∷◌ d t) h = cc
codes-injective (String.◌∷◌ c s) String.[] h = cc
codes-injective (String.◌∷◌ c s) (String.◌∷◌ d t) h =
    let same = codes-injective s t (cc) in
    let head : code c ≡ code d = cc in ap₂ String.◌∷◌ (Char-path c d head) same

-- No character of the text is `sep`.
abbrev pub IsFreeOf : ℕ → Text → Type 0
IsFreeOf sep [] = Unit
IsFreeOf sep (c ∷ s) = ((c == sep) ≡ false) × IsFreeOf sep s

abbrev pub AllFreeOf : ℕ → List Text → Type 0
AllFreeOf sep [] = Unit
AllFreeOf sep (p ∷ ps) = IsFreeOf sep p × AllFreeOf sep ps

pub split_on-free : (sep : ℕ) (s : Text) → IsFreeOf sep s → split_on sep s ≡ s ∷ []
unfolding split_on push
split_on-free sep [] h = refl
split_on-free sep (c ∷ s) h = rw (h.0, split_on-free sep s h.1) refl

join_single : (sep : ℕ) (p : Text) → join (sep ∷ []) (p ∷ []) ≡ p
unfolding join
join_single sep p = refl

join_step :
    (sep : ℕ) (p q : Text) (ps : List Text)
    → join (sep ∷ []) (p ∷ q ∷ ps) ≡ p ++ sep ∷ join (sep ∷ []) (q ∷ ps)
unfolding join
join_step sep p q ps = refl

-- Splitting takes apart what joining put together, where no part holds the separator.
pub split_on-join :
    (sep : ℕ) (p : Text) (ps : List Text)
    → AllFreeOf sep (p ∷ ps)
    → split_on sep (join (sep ∷ []) (p ∷ ps)) ≡ p ∷ ps
split_on-join sep p [] h = rw (join_single sep p) (split_on-free sep p h.0)
split_on-join sep p (q ∷ ps) h =
    ap (split_on sep) (join_step sep p q ps)
    ∙ split_on-append sep p (join (sep ∷ []) (q ∷ ps))
    ∙ ap₂ (λ a b. a ++ b) (split_on-free sep p h.0) (split_on-join sep q ps h.1)
    ∙ refl
