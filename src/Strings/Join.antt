-- ===== src/Strings/Join.antt =====
-- Parts that are joined, and cut up again.
use amaro.Prelude.{
  ℕ, ◌≡◌, refl, ap, ◌∙◌, ◌≢◌, false, List, [], ◌∷◌, ◌++◌, append-nil, append_assoc, sym, Str,
  is_empty, All, arith,
}
use amaro.Strings.{split, join, starts_with_byte}
use amaro.Strings.Parts.{parts, nonempty}

-- A part is not empty and holds no separator.
pub record IsPart (b : ℕ) (p : Str) : Type 0 where
  pub not_empty : p ≢ []
  pub whole : All (λ c. c ≢ b) p

split-part : (b : ℕ) (p : Str) → All (λ c. c ≢ b) p → split b p ≡ p ∷ []
unfolding split
split-part b [] h = refl
split-part b (c ∷ p) (ne, h) = ground (arith, split-part b p h)

pub split-append : (b : ℕ) (p s : Str) → All (λ c. c ≢ b) p → split b (p ++ (b ∷ s)) ≡ p ∷ split b s
unfolding split
split-append b [] s h = ground arith
split-append b (c ∷ p) s (ne, h) = ground (arith, split-append b p s h)

nonempty-cons : (p : Str) (ps : List Str) → p ≢ [] → nonempty (p ∷ ps) ≡ p ∷ nonempty ps
unfolding nonempty
nonempty-cons [] ps ne = ground arith
nonempty-cons (c ∷ p) ps ne = refl

is_empty-append : (p s : Str) → p ≢ [] → is_empty (p ++ s) ≡ false
is_empty-append [] s ne = ground arith
is_empty-append (c ∷ p) s ne = refl

starts_with_byte-append : (b : ℕ) (p s : Str) → IsPart b p → starts_with_byte b (p ++ s) ≡ false
unfolding starts_with_byte
starts_with_byte-append b [] s h = ground (arith, h.not_empty)
starts_with_byte-append b (c ∷ p) s h = ground (arith, h.whole.0)

module _ (b : ℕ) where
  pub parts-join : (ps : List Str) → All (IsPart b) ps → parts b (join (b ∷ []) ps) ≡ ps
  unfolding parts nonempty join split
  parts-join [] h = refl
  parts-join (p ∷ []) (hp, _) =
      ap nonempty (split-part b p hp.whole) ∙ nonempty-cons p [] hp.not_empty
  parts-join (p ∷ q ∷ ps) (hp, h) =
      ap nonempty (split-append b p (join (b ∷ []) (q ∷ ps)) hp.whole)
      ∙ nonempty-cons p (split b (join (b ∷ []) (q ∷ ps))) hp.not_empty
      ∙ ap (λ x. p ∷ x) (parts-join (q ∷ ps) h)

  pub join-not_empty :
      (p : Str) (ps : List Str) → IsPart b p → is_empty (join (b ∷ []) (p ∷ ps)) ≡ false
  unfolding join
  join-not_empty p [] h = ap is_empty (sym (append-nil p)) ∙ is_empty-append p [] h.not_empty
  join-not_empty p (q ∷ ps) h = is_empty-append p _ h.not_empty

  -- It starts with no separator.
  pub starts_with_byte-join :
      (ps : List Str) → All (IsPart b) ps → starts_with_byte b (join (b ∷ []) ps) ≡ false
  unfolding starts_with_byte join
  starts_with_byte-join [] h = refl
  starts_with_byte-join (p ∷ []) (h, _) =
      ap (starts_with_byte b) (sym (append-nil p)) ∙ starts_with_byte-append b p [] h
  starts_with_byte-join (p ∷ q ∷ ps) (h, _) = starts_with_byte-append b p _ h

  pub join-snoc :
      (p : Str) (ps : List Str) (q : Str)
      → join (b ∷ []) ((p ∷ ps) ++ (q ∷ [])) ≡ join (b ∷ []) (p ∷ ps) ++ (b ∷ q)
  unfolding join
  join-snoc p [] q = refl
  join-snoc p (p' ∷ ps) q =
      ap (λ x. p ++ (b ∷ x)) (join-snoc p' ps q)
      ∙ sym (append_assoc p (b ∷ join (b ∷ []) (p' ∷ ps)) (b ∷ q))
