-- ===== src/Strings/Parts.antt =====
-- The non-empty pieces of a path, on which the router's Add and Find agree, however each of them
-- cuts the path up.
use amaro.Prelude.{
  ℕ, ◌≤◌, ◌≡◌, refl, ◌∙◌, ◌≢◌, ◌⊎◌, inr, true, List, [], ◌∷◌, ◌++◌, Str, is_empty, if◌then◌else◌,
  length, All, arith,
}
use amaro.Strings.{
  cut, push_head, split, trim_left, trim_right, trim, starts_with_byte, ends_with_byte, drop_last,
  drop_first,
}

unfoldable pub nonempty : List Str → List Str
nonempty [] = []
nonempty (p ∷ ps) = if is_empty p then nonempty ps else p ∷ nonempty ps

-- The pieces between separators that are not empty.
unfoldable pub parts : ℕ → Str → List Str
unfolding nonempty split
parts b s = nonempty (split b s)

pub length-cut : (b : ℕ) (s : Str) → length (cut b s).1 ≤ length s
unfolding cut
length-cut b [] = omega arith
length-cut b (c ∷ s) = ground (arith, length-cut b s)

pub length-cut_lt : (b c : ℕ) (s : Str) → length (cut b (c ∷ s)).1 ≤ length s
unfolding cut
length-cut_lt b c s = ground (arith, length-cut b s)

-- The part before the separator holds none.
pub cut-All_ne : (b : ℕ) (s : Str) → All (λ c. c ≢ b) (cut b s).0
unfolding cut
cut-All_ne b [] = tt
cut-All_ne b (c ∷ s) = ground (arith, cut-All_ne b s)

-- Part and rest make up the text, with the separator between them if there is one.
pub cut-append :
    (b : ℕ) (s : Str)
    → (s ≡ (cut b s).0 ++ (b ∷ (cut b s).1)) ⊎ ((s ≡ (cut b s).0) × ((cut b s).1 ≡ []))
unfolding cut
cut-append b [] = inr (refl, refl)
cut-append b (c ∷ s) = ground (arith, cut-append b s)

split-cut :
    (b : ℕ) (s : Str)
    → (split b s ≡ (cut b s).0 ∷ split b (cut b s).1)
      ⊎ ((split b s ≡ (cut b s).0 ∷ []) × ((cut b s).1 ≡ []))
unfolding split cut
split-cut b [] = inr (refl, refl)
split-cut b (c ∷ s) = ground (arith, split-cut b s)

-- Cutting round by round finds the same non-empty parts as splitting at once.
pub parts-cut :
    (b c : ℕ) (s : Str)
    → parts b (c ∷ s) ≡ (
        if is_empty (cut b (c ∷ s)).0
        then parts b (cut b (c ∷ s)).1
        else (cut b (c ∷ s)).0 ∷ parts b (cut b (c ∷ s)).1)
unfolding parts
parts-cut b c s = ground (arith, split-cut b (c ∷ s))

pub parts-sep : (b : ℕ) (s : Str) → parts b (b ∷ s) ≡ parts b s
unfolding parts
parts-sep b s = ground arith

pub parts-trim_left : (b : ℕ) (s : Str) → parts b (trim_left b s) ≡ parts b s
unfolding trim_left
parts-trim_left b [] = refl
parts-trim_left b (c ∷ s) = ground (arith, parts-trim_left b s, parts-sep b s)

parts-nil : (b : ℕ) → parts b [] ≡ []
unfolding parts
parts-nil b = refl

head_piece : List Str → Str
head_piece [] = []
head_piece (p ∷ ps) = p

tail_pieces : List Str → List Str
tail_pieces [] = []
tail_pieces (p ∷ ps) = ps

split-cons : (b : ℕ) (s : Str) → split b s ≡ head_piece (split b s) ∷ tail_pieces (split b s)
unfolding split head_piece tail_pieces
split-cons b [] = refl
split-cons b (c ∷ s) = ground (arith, split-cons b s)

-- There is always a first piece.
pub split-some : (b : ℕ) (s : Str) → (p : Str) × (ps : List Str) × (split b s ≡ p ∷ ps)
split-some b s = (head_piece (split b s), tail_pieces (split b s), split-cons b s)

-- Two texts whose splits differ in empty pieces alone, and not in the first.
record SameParts (b : ℕ) (s t : Str) : Type 0 where
  head_eq : head_piece (split b s) ≡ head_piece (split b t)
  tail_eq : nonempty (tail_pieces (split b s)) ≡ nonempty (tail_pieces (split b t))

parts_of_SameParts : (b : ℕ) (s t : Str) → SameParts b s t → parts b s ≡ parts b t
unfolding parts
parts_of_SameParts b s t h = ground (arith, split-cons b s, split-cons b t)

SameParts-cons : (b c : ℕ) (s t : Str) → SameParts b s t → SameParts b (c ∷ s) (c ∷ t)
unfolding split head_piece tail_pieces nonempty
SameParts-cons b c s t h = ground (arith, split-cons b s, split-cons b t)

trim_right-SameParts : (b : ℕ) (s : Str) → SameParts b (trim_right b s) s
unfolding trim_right split head_piece tail_pieces nonempty
trim_right-SameParts b [] = ground arith
trim_right-SameParts b (c ∷ s) =
    ground (arith, trim_right-SameParts b s, SameParts-cons b c (trim_right b s) s, split-cons b s)

drop_last-SameParts : (b : ℕ) (s : Str) → ends_with_byte b s ≡ true → SameParts b (drop_last s) s
unfolding drop_last ends_with_byte split head_piece tail_pieces nonempty
drop_last-SameParts b [] h = cc
drop_last-SameParts b (c ∷ []) h = ground arith
drop_last-SameParts b (c ∷ d ∷ s) h =
    SameParts-cons b c (drop_last (d ∷ s)) (d ∷ s) (drop_last-SameParts b (d ∷ s) h)

-- strings.Trim changes no part.
pub parts-trim : (b : ℕ) (s : Str) → parts b (trim b s) ≡ parts b s
unfolding trim
parts-trim b s =
    parts_of_SameParts b _ _ (trim_right-SameParts b (trim_left b s)) ∙ parts-trim_left b s

-- Nor does taking one separator off at the end, or at the front.
pub parts-drop_last :
    (b : ℕ) (s : Str) → ends_with_byte b s ≡ true → parts b (drop_last s) ≡ parts b s
parts-drop_last b s h = parts_of_SameParts b _ _ (drop_last-SameParts b s h)

pub parts-drop_first :
    (b : ℕ) (s : Str) → starts_with_byte b s ≡ true → parts b (drop_first s) ≡ parts b s
unfolding starts_with_byte drop_first
parts-drop_first b [] h = cc
parts-drop_first b (c ∷ s) h = ground (arith, parts-sep b s)

nonempty-All_ne : (ps : List Str) → All (λ p. p ≢ []) (nonempty ps)
unfolding nonempty
nonempty-All_ne [] = tt
nonempty-All_ne ([] ∷ ps) = nonempty-All_ne ps
nonempty-All_ne ((c ∷ p) ∷ ps) = (λ e. cc, nonempty-All_ne ps)

pub parts-All_ne : (b : ℕ) (s : Str) → All (λ p. p ≢ []) (parts b s)
unfolding parts
parts-All_ne b s = nonempty-All_ne (split b s)

push_head-All_ne :
    (b c : ℕ) (ps : List Str)
    → c ≢ b
    → All (λ p. All (λ x. x ≢ b) p) ps
    → All (λ p. All (λ x. x ≢ b) p) (push_head c ps)
push_head-All_ne b c [] ne h = ((ne, tt), tt)
push_head-All_ne b c (p ∷ ps) ne (hp, hps) = ((ne, hp), hps)

split-All_ne : (b : ℕ) (s : Str) → All (λ p. All (λ x. x ≢ b) p) (split b s)
unfolding split
split-All_ne b [] = (tt, tt)
split-All_ne b (c ∷ s) = ground (arith, split-All_ne b s, push_head-All_ne b c (split b s))

nonempty-All : (P : Str → Type 0) (ps : List Str) → All P ps → All P (nonempty ps)
unfolding nonempty
nonempty-All P [] h = tt
nonempty-All P ([] ∷ ps) (_, h) = nonempty-All P ps h
nonempty-All P ((c ∷ p) ∷ ps) (hp, h) = (hp, nonempty-All P ps h)

-- The parts hold no separator.
pub parts-All_bytes_ne : (b : ℕ) (s : Str) → All (λ p. All (λ x. x ≢ b) p) (parts b s)
unfolding parts
parts-All_bytes_ne b s = nonempty-All _ (split b s) (split-All_ne b s)
