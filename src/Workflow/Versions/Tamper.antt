-- ===== src/Workflow/Versions/Tamper.antt =====
-- What an attacker who does not break the hash can change without `verify_chain` showing it.
use eaistack.Base.{
  ℕ, String, Option, none, List, [], ◌∷◌, ◌≡◌, ◌≢◌, refl, ap, sym, ◌∙◌, list_eq, nat_eq, option_eq,
  map,
}
use eaistack.Base.Text.{
  Text, codes, codes-injective, join, split_on, split_on-join, IsFreeOf, AllFreeOf,
}
use eaistack.Workflow.Versions.{
  Platform, WorkflowVersion, Versions, compute_content_hash, compute_chain_hash, chain_parts,
  or_empty,
}
use eaistack.Workflow.Versions.Chain.{verify_chain}
use eaistack.Workflow.Versions.Intact.{IsDescending, IsLinked, IsChain, head_hash, verify_chain_iff}

-- What the chain relies on: the hash has no collisions, and neither a digest nor a printed number or
-- time holds NUL.
pub record Laws (p : Platform) : Type 0 where
  pub sha256_injective : (a b : Text) → p.sha256 a ≡ p.sha256 b → a ≡ b
  pub sha256_nonempty : (a : Text) → p.sha256 a ≢ []
  pub sha256_free : (a : Text) → IsFreeOf 0 (p.sha256 a)
  pub str_injective : (m n : ℕ) → p.str m ≡ p.str n → m ≡ n
  pub str_free : (n : ℕ) → IsFreeOf 0 (p.str n)
  pub isoformat_injective : (s t : ℕ) → p.isoformat s ≡ p.isoformat t → s ≡ t
  pub isoformat_free : (t : ℕ) → IsFreeOf 0 (p.isoformat t)

-- What the chain covers of a version: all but its id, its parent and its source.
abbrev pub Covered : Type 0
Covered = String × ℕ × String × String × Text × ℕ

abbrev pub covered : WorkflowVersion → Covered
covered v =
    (v.workflow_name, v.sequence, v.yaml_text, v.author_user_id, v.change_note, v.created_at)

-- No field that is joined holds NUL.
abbrev pub IsClean : Versions → Type 0
IsClean [] = Unit
IsClean (v ∷ vs) =
    (IsFreeOf 0 (codes v.workflow_name)
      × (IsFreeOf 0 (codes v.author_user_id) × IsFreeOf 0 v.change_note))
    × IsClean vs

abbrev parts_of : Platform → Option Text → WorkflowVersion → List Text
parts_of p o v =
    chain_parts p o v.workflow_name v.sequence (p.sha256 (codes v.yaml_text)) v.author_user_id
      v.change_note v.created_at

abbrev rest_of : Platform → WorkflowVersion → List Text
rest_of p v =
    codes v.workflow_name
    ∷ p.str v.sequence
    ∷ p.sha256 (codes v.yaml_text)
    ∷ codes v.author_user_id
    ∷ v.change_note
    ∷ p.isoformat v.created_at
    ∷ []

hash_of_passing :
    (p : Platform) (o : Option Text) (v : WorkflowVersion)
    → IsLinked p o v
    → v.chain_hash ≡ p.sha256 (join (0 ∷ []) (parts_of p o v))
unfolding compute_chain_hash compute_content_hash
hash_of_passing p o v h = h.hashed

module _ (p : Platform) (laws : Laws p) where
  head_free : (vs : Versions) → IsChain p vs → IsFreeOf 0 (or_empty (head_hash vs))
  head_free [] h = tt
  head_free (v ∷ vs) h =
      rw (hash_of_passing p (head_hash vs) v h.0)
        (laws.sha256_free (join (0 ∷ []) (parts_of p (head_hash vs) v)))

  parts_free :
      (v : WorkflowVersion) (vs : Versions)
      → IsChain p vs
      → IsClean (v ∷ vs)
      → AllFreeOf 0 (parts_of p (head_hash vs) v)
  parts_free v vs h clean = (
    head_free vs h,
    (
      clean.0.0,
      (
        laws.str_free v.sequence,
        (
          laws.sha256_free (codes v.yaml_text),
          (clean.0.1.0, (clean.0.1.1, (laws.isoformat_free v.created_at, tt))),
        ),
      ),
    ),
  )

  parts_agree :
      (v w : WorkflowVersion) (vs ws : Versions)
      → IsChain p (v ∷ vs)
      → IsChain p (w ∷ ws)
      → IsClean (v ∷ vs)
      → IsClean (w ∷ ws)
      → v.chain_hash ≡ w.chain_hash
      → parts_of p (head_hash vs) v ≡ parts_of p (head_hash ws) w
  parts_agree v w vs ws hv hw cv cw same =
      let joined =
        laws.sha256_injective (join (0 ∷ []) (parts_of p (head_hash vs) v))
          (join (0 ∷ []) (parts_of p (head_hash ws) w))
          (sym (hash_of_passing p (head_hash vs) v hv.0)
            ∙ same
            ∙ hash_of_passing p (head_hash ws) w hw.0) in
      sym (split_on-join 0 (or_empty (head_hash vs)) (rest_of p v) (parts_free v vs hv.1 cv))
      ∙ ap (split_on 0) joined
      ∙ split_on-join 0 (or_empty (head_hash ws)) (rest_of p w) (parts_free w ws hw.1 cw)

  covered_agree :
      (v w : WorkflowVersion) (a b : Text)
      → a ∷ rest_of p v ≡ b ∷ rest_of p w
      → (a ≡ b) × (covered v ≡ covered w)
  covered_agree v w a b h =
      let name = codes-injective v.workflow_name w.workflow_name (cc) in
      let sequence = laws.str_injective v.sequence w.sequence (cc) in
      let yaml =
        codes-injective v.yaml_text w.yaml_text
          (laws.sha256_injective (codes v.yaml_text) (codes w.yaml_text) (cc)) in
      let author = codes-injective v.author_user_id w.author_user_id (cc) in
      let created = laws.isoformat_injective v.created_at w.created_at (cc) in (cc, cc)

  head_nonempty : (v : WorkflowVersion) (vs : Versions) → IsChain p (v ∷ vs) → v.chain_hash ≢ []
  head_nonempty v vs h empty =
      laws.sha256_nonempty (join (0 ∷ []) (parts_of p (head_hash vs) v))
        (sym (hash_of_passing p (head_hash vs) v h.0) ∙ empty)

  chains_agree :
      (vs ws : Versions)
      → IsChain p vs
      → IsChain p ws
      → IsClean vs
      → IsClean ws
      → or_empty (head_hash vs) ≡ or_empty (head_hash ws)
      → map covered vs ≡ map covered ws
  chains_agree [] [] hv hw cv cw same = refl
  chains_agree [] (w ∷ ws) hv hw cv cw same = elim (head_nonempty w ws hw (sym same)) [ ]
  chains_agree (v ∷ vs) [] hv hw cv cw same = elim (head_nonempty v vs hv same) [ ]
  chains_agree (v ∷ vs) (w ∷ ws) hv hw cv cw same =
      let parts = parts_agree v w vs ws hv hw cv cw same in
      let (below, here) =
        covered_agree v w (or_empty (head_hash vs)) (or_empty (head_hash ws)) parts in
      let rest = chains_agree vs ws hv.1 hw.1 cv.1 cw.1 below in cc

-- Two histories that both pass `verify_chain` and end in the same chain hash cover the same versions,
-- in number, order and every hashed field: under a hash without collisions and fields without NUL, a
-- rewritten history shows unless its newest chain hash changed too.
pub verify_chain-tamper_evident :
    (p : Platform)
    → Laws p
    → (vs ws : Versions) → IsDescending vs
    → IsDescending ws
    → IsClean vs
    → IsClean ws
    → verify_chain p vs ≡ none
    → verify_chain p ws ≡ none
    → head_hash vs ≡ head_hash ws
    → map covered vs ≡ map covered ws
verify_chain-tamper_evident p laws vs ws dv dw cv cw hv hw same =
    chains_agree p laws vs ws ((verify_chain_iff p vs dv).0 hv) ((verify_chain_iff p ws dw).0 hw) cv
      cw (ap or_empty same)
