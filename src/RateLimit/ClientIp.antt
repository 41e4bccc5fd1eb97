-- ===== src/RateLimit/ClientIp.antt =====
-- backend/app/core/client_ip.py: the address that keys the bucket of an unauthenticated caller.
use eaistack.Base.{
  ℕ, suc, ◌+◌, ◌-◌, ◌≡◌, refl, Bool, true, false, ◌&&◌, Option, none, some, List, [], ◌∷◌, ◌++◌,
  map, length, ltb, leb, if◌then◌else◌, arith, length-append, ◌∙◌,
}
use eaistack.Base.Text.{Text, codes, split_on, strip, split_on-append}

-- Whether Python takes the text for true.
abbrev is_present : Text → Bool
is_present [] = false
is_present (c ∷ s) = true

abbrev get_or : Text → List Text → ℕ → Text
get_or d [] i = d
get_or d (w ∷ ws) ℕ.zero = w
get_or d (w ∷ ws) (suc i) = get_or d ws i

peer_or_unknown : Option Text → Text
peer_or_unknown none = codes "unknown"
peer_or_unknown (some peer) = if is_present peer then peer else codes "unknown"

hops : Text → List Text
hops header = map strip (split_on b',' header)

-- `hops[-count]` is the element at `len(hops) - count`.
pub resolve_client_ip : Option Text → Option Text → ℕ → Text
unfolding peer_or_unknown hops
resolve_client_ip peer none count = peer_or_unknown peer
resolve_client_ip peer (some header) count =
    if ltb 0 count && is_present header && leb count (length (hops header))
    then get_or (peer_or_unknown peer) (hops header) (length (hops header) - count)
    else peer_or_unknown peer

length-map : (f : Text → Text) (xs : List Text) → length (map f xs) ≡ length xs
length-map f [] = refl
length-map f (x ∷ xs) = omega (arith, length-map f xs)

get_or-append :
    (f : Text → Text) (d w : Text) (xs ws : List Text)
    → get_or d (map f (xs ++ w ∷ ws)) (length xs) ≡ f w
get_or-append f d w [] ws = refl
get_or-append f d w (x ∷ xs) ws = get_or-append f d w xs ws

is_present-append : (a : Text) (c : ℕ) (b : Text) → is_present (a ++ c ∷ b) ≡ true
is_present-append [] c b = refl
is_present-append (d ∷ a) c b = refl

-- Behind as many trusted proxies as the deployment counts, the address is the one that the first of
-- them saw, whatever the caller put into the header before.
pub resolve_client_ip-ignores_prefix :
    (peer : Option Text) (forged trusted : Text) (seen : Text) (later : List Text)
    → split_on b',' trusted ≡ seen ∷ later
    → resolve_client_ip peer (some (forged ++ b',' ∷ trusted)) (length (seen ∷ later)) ≡ strip seen
unfolding resolve_client_ip
resolve_client_ip-ignores_prefix peer forged trusted seen later e =
    let pieces = split_on b',' forged in
    let present : is_present (forged ++ b',' ∷ trusted) ≡ true =
      is_present-append forged b',' trusted in
    let counted : length (map strip (pieces ++ seen ∷ later)) ≡ length pieces + suc (length later) =
      length-map strip (pieces ++ seen ∷ later) ∙ length-append pieces (seen ∷ later) in
    let size : length (map strip (pieces ++ seen ∷ later)) - suc (length later) ≡ length pieces =
      omega arith in
    rw
      (
        split_on-append b',' forged trusted,
        e,
        present,
        size,
        get_or-append strip (peer_or_unknown peer) seen pieces later,
      )
      (ground arith)
