-- ===== src/Static/Paths/Names.antt =====
-- Names of files that go up nowhere.
use amaro.Prelude.{
  ◌≡◌, refl, ap, ◌∙◌, ◌≢◌, Bool, true, false, ◌||◌, not, List, [], ◌∷◌, ◌++◌, Str, codes, str_eq,
  is_empty, if◌then◌else◌, All, All-append, arith,
}
use amaro.Strings.{join, starts_with_byte}
use amaro.Strings.Parts.{parts, nonempty, parts-All_ne, parts-All_bytes_ne}
use amaro.Strings.Join.{IsPart, parts-join, join-not_empty, starts_with_byte-join, join-snoc}
use amaro.Static.Paths.{add_element, resolve, in_order, clean, join_path}

-- An element that names something in its directory.
pub record IsPlain (p : Str) : Type 0 where
  pub not_empty : p ≢ []
  pub not_here : str_eq p (codes ".") ≡ false
  pub not_up : str_eq p (codes "..") ≡ false
  pub one_element : All (λ c. c ≢ b'/') p

-- An element as it stands between slashes, and that goes up at a root alone.
record IsElement (rooted : Bool) (p : Str) : Type 0 where
  not_empty : p ≢ []
  one_element : All (λ c. c ≢ b'/') p
  up_at_root : (rooted || not (str_eq p (codes ".."))) ≡ true

IsPlain-of :
    (rooted : Bool) (p : Str)
    → IsElement rooted p
    → str_eq p (codes ".") ≡ false
    → str_eq p (codes "..") ≡ false
    → IsPlain p
IsPlain-of rooted p h here up = record {
  not_empty = h.not_empty;
  not_here = here;
  not_up = up;
  one_element = h.one_element;
}

add_element-IsPlain :
    (rooted : Bool) (ds : List Str) (p : Str)
    → All IsPlain ds
    → IsElement rooted p
    → All IsPlain (add_element rooted ds p)
unfolding add_element
add_element-IsPlain rooted [] p hd h = ground (arith, IsPlain-of rooted p h)
add_element-IsPlain rooted (d ∷ ds) p (hd, hds) h = ground (arith, IsPlain-of rooted p h)

resolve-IsPlain :
    (rooted : Bool) (ds ps : List Str)
    → All IsPlain ds
    → All (IsElement rooted) ps
    → All IsPlain (resolve rooted ds ps)
unfolding resolve
resolve-IsPlain rooted ds [] hd _ = hd
resolve-IsPlain rooted ds (p ∷ ps) hd (h, hs) =
    resolve-IsPlain rooted (add_element rooted ds p) ps (add_element-IsPlain rooted ds p hd h) hs

in_order-IsPlain :
    (ds done : List Str) → All IsPlain ds → All IsPlain done → All IsPlain (in_order ds done)
unfolding in_order
in_order-IsPlain [] done _ h = h
in_order-IsPlain (d ∷ ds) done (hd, hds) h = in_order-IsPlain ds (d ∷ done) hds (hd, h)

IsPart-of : (p : Str) → IsPlain p → IsPart b'/' p
IsPart-of p h = record { not_empty = h.not_empty; whole = h.one_element }

parts_of : (ps : List Str) → All IsPlain ps → All (IsPart b'/') ps
parts_of [] h = tt
parts_of (p ∷ ps) (hp, h) = (IsPart-of p hp, parts_of ps h)

-- The elements of a joined name are those that it was joined of.
pub parts-plain : (ps : List Str) → All IsPlain ps → parts b'/' (join (codes "/") ps) ≡ ps
parts-plain ps h = parts-join b'/' ps (parts_of ps h)

add_element-plain :
    (rooted : Bool) (ds : List Str) (p : Str) → IsPlain p → add_element rooted ds p ≡ p ∷ ds
unfolding add_element
add_element-plain rooted [] p h = ground (arith, h.not_here, h.not_up)
add_element-plain rooted (d ∷ ds) p h = ground (arith, h.not_here, h.not_up)

resolve-plain :
    (rooted : Bool) (ds ps : List Str)
    → All IsPlain ps
    → in_order (resolve rooted ds ps) [] ≡ in_order ds ps
unfolding resolve in_order
resolve-plain rooted ds [] _ = refl
resolve-plain rooted ds (p ∷ ps) (hp, h) =
    ap (λ x. in_order (resolve rooted x ps) []) (add_element-plain rooted ds p hp)
    ∙ resolve-plain rooted (p ∷ ds) ps h

-- The names of the directories and the file that the text asks for.
unfoldable pub names : Str → List Str
unfolding resolve in_order starts_with_byte parts
names s = in_order (resolve (starts_with_byte b'/' s) [] (parts b'/' s)) []

-- At a root, nothing goes up.
IsElement-at_root :
    (rooted : Bool) (ps : List Str)
    → rooted ≡ true
    → All (λ p. p ≢ []) ps
    → All (λ p. All (λ c. c ≢ b'/') p) ps
    → All (IsElement rooted) ps
IsElement-at_root rooted [] _ _ _ = tt
IsElement-at_root rooted (p ∷ ps) h (e, es) (w, ws) = (
  record { not_empty = e; one_element = w; up_at_root = ground (arith, h) },
  IsElement-at_root rooted ps h es ws,
)

pub names-IsPlain : (s : Str) → starts_with_byte b'/' s ≡ true → All IsPlain (names s)
unfolding names
names-IsPlain s h =
    in_order-IsPlain (resolve (starts_with_byte b'/' s) [] (parts b'/' s)) []
      (resolve-IsPlain (starts_with_byte b'/' s) [] (parts b'/' s) tt (
        IsElement-at_root (starts_with_byte b'/' s) (parts b'/' s) h (parts-All_ne b'/' s)
          (parts-All_bytes_ne b'/' s)))
      tt

pub clean-rooted :
    (s : Str) → starts_with_byte b'/' s ≡ true → clean s ≡ b'/' ∷ join (codes "/") (names s)
unfolding clean names
clean-rooted s h = ground (arith, h)

-- Clean leaves a name alone that is made of plain elements.
pub clean-join :
    (p : Str) (ps : List Str)
    → All IsPlain (p ∷ ps)
    → clean (join (codes "/") (p ∷ ps)) ≡ join (codes "/") (p ∷ ps)
unfolding clean
clean-join p ps (hp, h) =
    let s = join (codes "/") (p ∷ ps) in
    let elements = parts-plain (p ∷ ps) (hp, h) in
    let path =
      ap (λ x. join (codes "/") (in_order (resolve false [] x) [])) elements
      ∙ ap (join (codes "/")) (resolve-plain false [] (p ∷ ps) (hp, h)) in
    ground (
      arith,
      path,
      starts_with_byte-join b'/' (p ∷ ps) (parts_of (p ∷ ps) (hp, h)),
      join-not_empty b'/' p ps (IsPart-of p hp),
    )

join_path-clean :
    (s t : Str)
    → is_empty t ≡ false
    → join_path s t ≡ (if is_empty s then clean t else clean (s ++ (b'/' ∷ t)))
unfolding join_path nonempty join
join_path-clean [] [] h = cc
join_path-clean (a ∷ s) [] h = cc
join_path-clean [] (b ∷ t) h = refl
join_path-clean (a ∷ s) (b ∷ t) h = refl

-- A file in a directory.
pub join_path-plain :
    (ps : List Str) (q : Str)
    → All IsPlain ps
    → IsPlain q
    → join_path (join (codes "/") ps) q ≡ join (codes "/") (ps ++ (q ∷ []))
unfolding join
join_path-plain [] q h hq =
    join_path-clean [] q (join-not_empty b'/' q [] (IsPart-of q hq)) ∙ clean-join q [] (hq, tt)
join_path-plain (p ∷ ps) q (hp, h) hq =
    let all = All-append IsPlain (p ∷ ps) (q ∷ []) (hp, h) (hq, tt) in
    ground (
      arith,
      join_path-clean (join (codes "/") (p ∷ ps)) q (join-not_empty b'/' q [] (IsPart-of q hq)),
      join-not_empty b'/' p ps (IsPart-of p hp),
      join-snoc b'/' p ps q,
      clean-join p (ps ++ (q ∷ [])) all,
    )
