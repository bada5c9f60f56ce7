-- ===== src/Site/Route/Segments.antt =====
-- A prefix of internal/site/route.go is matched by whole path segments.
use lamund.Prelude.{
  ℕ, ◌≡◌, refl, sym, ap, ◌∙◌, ◌≢◌, ◌↔◌, ◌⊎◌, inl, inr, true, ◌||◌, List, [], ◌∷◌, ◌++◌,
  append_assoc, append-nil, arith, Bool-cases, Bytes, beq, beq_sound, beq_refl, beq_iff, has_prefix,
  has_prefix_sound, has_prefix_append, split, join, split-ne-nil, join-split, split-append_sep,
  trim, is_slash,
}
use lamund.Site.Route.{matches}

join-append :
    (sep : ℕ) (ps qs : List Bytes)
    → ps ≢ []
    → qs ≢ []
    → join sep (ps ++ qs) ≡ join sep ps ++ sep ∷ join sep qs
unfolding join
join-append sep [] qs h k = absurd (h refl)
join-append sep (p ∷ []) [] h k = absurd (k refl)
join-append sep (p ∷ []) (q ∷ qs) h k = refl
join-append sep (p ∷ m ∷ ps) qs h k =
    rw (join-append sep (m ∷ ps) qs (cc) k) (sym (append_assoc p (sep ∷ join sep (m ∷ ps)) _))

-- The segments of `path` begin with those of `prefix`.
abbrev pub BeginsWith : Bytes → Bytes → Type 0
BeginsWith path prefix = (rest : List Bytes) × (split b'/' path ≡ split b'/' prefix ++ rest)

begins_sound :
    (p path : Bytes) → (beq path p || has_prefix path (p ++ b'/' ∷ [])) ≡ true → BeginsWith path p
begins_sound p path h = elim (Bool-cases (beq path p)) [
  | inl same ↦ ([], ap (split b'/') (beq_sound path p same) ∙ sym (append-nil _))
  | inr other ↦
      let (rest, e) = has_prefix_sound path (p ++ b'/' ∷ []) (rw other at h) in
      (split b'/' rest, rw (e, append_assoc) (split-append_sep b'/' p rest))
]

begins_complete :
    (p path : Bytes) → BeginsWith path p → (beq path p || has_prefix path (p ++ b'/' ∷ [])) ≡ true
begins_complete p path ([], e) =
    let same : path ≡ p =
      sym (join-split b'/' path) ∙ ap (join b'/') (e ∙ append-nil _) ∙ join-split b'/' p in
    rw same (rw (beq_refl p) refl)
begins_complete p path (q ∷ rest, e) =
    let spelled : path ≡ p ++ b'/' ∷ join b'/' (q ∷ rest) =
      sym (join-split b'/' path)
      ∙ ap (join b'/') e
      ∙ join-append b'/' (split b'/' p) (q ∷ rest) (split-ne-nil b'/' p) (cc)
      ∙ ap (λ k. k ++ b'/' ∷ join b'/' (q ∷ rest)) (join-split b'/' p) in
    let longer : has_prefix path (p ++ b'/' ∷ []) ≡ true = rw spelled (
      rw (sym (append_assoc p (b'/' ∷ []) (join b'/' (q ∷ rest))))
        (has_prefix_append (p ++ b'/' ∷ []) (join b'/' (q ∷ rest)))) in
    ground (arith, longer)

matches_sound :
    (prefix path : Bytes)
    → matches prefix path ≡ true
    → ((prefix ≡ []) ⊎ (prefix ≡ b'/' ∷ [])) ⊎ BeginsWith path (b'/' ∷ trim is_slash prefix)
unfolding matches
matches_sound prefix path h = elim (Bool-cases (beq prefix [] || beq prefix (b'/' ∷ []))) [
  | inl root ↦ inl (ground (arith, beq_iff prefix [], beq_iff prefix (b'/' ∷ [])))
  | inr other ↦ inr (begins_sound (b'/' ∷ trim is_slash prefix) path (rw other at h))
]

matches_complete :
    (prefix path : Bytes)
    → ((prefix ≡ []) ⊎ (prefix ≡ b'/' ∷ [])) ⊎ BeginsWith path (b'/' ∷ trim is_slash prefix)
    → matches prefix path ≡ true
unfolding matches
matches_complete prefix path (inl root) =
    ground (arith, beq_iff prefix [], beq_iff prefix (b'/' ∷ []))
matches_complete prefix path (inr begins) =
    let taken = begins_complete (b'/' ∷ trim is_slash prefix) path begins in
    elim (Bool-cases (beq prefix [] || beq prefix (b'/' ∷ []))) [
      | inl root ↦ rw root
      | inr other ↦ rw other taken
    ]

-- A route whose prefix is empty or "/" takes every path. Any other takes a path exactly when the
-- segments of the path begin with those of the prefix, its outer slashes set aside.
pub matches_iff :
    (prefix path : Bytes)
    → (matches prefix path ≡ true)
      ↔ (((prefix ≡ []) ⊎ (prefix ≡ b'/' ∷ [])) ⊎ BeginsWith path (b'/' ∷ trim is_slash prefix))
matches_iff prefix path = (matches_sound prefix path, matches_complete prefix path)
