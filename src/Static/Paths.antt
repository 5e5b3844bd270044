-- ===== src/Static/Paths.antt =====
-- Go's path.Clean and path.Join, which static.go calls.
pub mod Names
use amaro.Prelude.{
  ℕ, Bool, true, false, ◌&&◌, List, [], ◌∷◌, ◌++◌, Str, codes, str_eq, is_empty, if◌then◌else◌,
}
use amaro.Strings.{join, starts_with_byte}
use amaro.Strings.Parts.{parts, nonempty}

-- One element behind others, which are held from the last to the first.
add_element : Bool → List Str → Str → List Str
unfolding str_eq
add_element rooted [] p =
    if str_eq p (codes ".") then [] else if rooted && str_eq p (codes "..") then [] else p ∷ []
add_element rooted (d ∷ ds) p =
    if str_eq p (codes ".")
    then d ∷ ds
    else if str_eq p (codes "..")
    then if str_eq d (codes "..") then p ∷ d ∷ ds else ds
    else p ∷ d ∷ ds

-- The elements behind those that are there.
resolve : Bool → List Str → List Str → List Str
unfolding add_element
resolve rooted ds [] = ds
resolve rooted ds (p ∷ ps) = resolve rooted (add_element rooted ds p) ps

-- The elements from the first to the last, in front of others.
in_order : List Str → List Str → List Str
in_order [] done = done
in_order (d ∷ ds) done = in_order ds (d ∷ done)

unfoldable pub clean : Str → Str
unfolding starts_with_byte parts resolve in_order join
clean s =
    let rooted = starts_with_byte b'/' s in
    let path = join (codes "/") (in_order (resolve rooted [] (parts b'/' s)) []) in
    if rooted then b'/' ∷ path else if is_empty path then codes "." else path

-- path.Join of two elements
unfoldable pub join_path : Str → Str → Str
unfolding nonempty clean join
join_path s t =
    let path = join (codes "/") (nonempty (s ∷ t ∷ [])) in if is_empty path then [] else clean path
