-- ===== src/Trie/Table.antt =====
-- What a trie stores: the route under each pattern. Add writes the entry of its own pattern and no
-- other, or reports a conflict of names and writes nothing.
use amaro.Prelude.{
  ◌≡◌, refl, ap, ◌⊎◌, List, [], ◌∷◌, map, Option, none, some, Str, str_eq, str_eq_iff, str_eq_self,
  if◌then◌else◌, arith, Bool, true, false, ◌&&◌, Bool-cases, inl, inr,
}
use amaro.Errors.{Error, nil, plain, http, is_nil}
use amaro.Routing.{Route, RouterConfig, Segment, static, param, wildcard, classify}
use amaro.Strings.Parts.{nonempty}
use amaro.Trie.{
  Node, node, NodePtr, absent, ptr, Children, none_left, child, empty_node, or_empty, get_child,
  set_child, Update, add_segment, set_route, insert,
}

abbrev pub seg_eq : Segment → Segment → Bool
seg_eq (static s) (static t) = str_eq s t
seg_eq (param s) (param t) = str_eq s t
seg_eq (wildcard s) (wildcard t) = str_eq s t
seg_eq _ _ = false

unfoldable pub pattern_eq : List Segment → List Segment → Bool
pattern_eq [] [] = true
pattern_eq (a ∷ p) (b ∷ q) = seg_eq a b && pattern_eq p q
pattern_eq _ _ = false

seg_eq_sound : (a b : Segment) → seg_eq a b ≡ true → a ≡ b
seg_eq_sound (static s) (static t) h = ground (arith, str_eq_iff s t)
seg_eq_sound (param s) (param t) h = ground (arith, str_eq_iff s t)
seg_eq_sound (wildcard s) (wildcard t) h = ground (arith, str_eq_iff s t)
seg_eq_sound _ _ h = cc

pub pattern_eq_sound : (p q : List Segment) → pattern_eq p q ≡ true → p ≡ q
unfolding pattern_eq
pattern_eq_sound [] [] h = refl
pattern_eq_sound (a ∷ p) (b ∷ q) h = ground (arith, seg_eq_sound a b, pattern_eq_sound p q)
pattern_eq_sound [] (b ∷ q) h = cc
pattern_eq_sound (a ∷ p) [] h = cc

seg_eq_self : (a : Segment) → seg_eq a a ≡ true
seg_eq_self (static s) = str_eq_self s
seg_eq_self (param s) = str_eq_self s
seg_eq_self (wildcard s) = str_eq_self s

pub pattern_eq_self : (p : List Segment) → pattern_eq p p ≡ true
unfolding pattern_eq
pattern_eq_self [] = refl
pattern_eq_self (a ∷ p) = ground (arith, seg_eq_self a, pattern_eq_self p)

-- The pattern that Add reads off the pieces of a path.
unfoldable pub segments : RouterConfig → List Str → List Segment
unfolding nonempty
segments cfg parts = map (classify cfg) (nonempty parts)

eq-nil_of_is_nil : (e : Error) → is_nil e ≡ true → e ≡ nil
eq-nil_of_is_nil nil h = refl
eq-nil_of_is_nil (plain s) h = cc
eq-nil_of_is_nil (http c m i) h = cc

module _ {S : Type 0} where
  abbrev pub registered : Route S → Option (Route S)
  registered r = elim r.handler [ none ↦ none | some _ ↦ some r ]

  abbrev pub at_ptr : (Node S → Option (Route S)) → NodePtr S → Option (Route S)
  at_ptr f absent = none
  at_ptr f (ptr n) = f n

  -- The route under a pattern, if a handler was registered there.
  unfoldable pub route_at : List Segment → Node S → Option (Route S)
  unfolding get_child
  route_at [] (node cs p px w wx r) = registered r
  route_at (static s ∷ more) (node cs p px w wx r) = at_ptr (route_at more) (get_child s cs)
  route_at (param x ∷ more) (node cs p px w wx r) =
      if str_eq px x then at_ptr (route_at more) p else none
  route_at (wildcard x ∷ more) (node cs p px w wx r) =
      if str_eq wx x then at_ptr (route_at more) w else none

  unfoldable pub insert_at : Route S → List Segment → Update S
  unfolding add_segment
  insert_at r [] n = set_route r n
  insert_at r (seg ∷ segs) n = add_segment seg (insert_at r segs) n

  pub insert-eq-insert_at :
      (cfg : RouterConfig) (r : Route S) (parts : List Str)
      → insert cfg r parts ≡ insert_at r (segments cfg parts)
  unfolding insert insert_at segments
  insert-eq-insert_at cfg r [] = refl
  insert-eq-insert_at cfg r ([] ∷ parts) = insert-eq-insert_at cfg r parts
  insert-eq-insert_at cfg r ((c ∷ part) ∷ parts) =
      ap (λ rest n. add_segment (classify cfg (c ∷ part)) rest n) (insert-eq-insert_at cfg r parts)

  get_child-set_child :
      (k j : Str) (m : Node S) (cs : Children S)
      → get_child j (set_child k m cs) ≡ (if str_eq k j then ptr m else get_child j cs)
  unfolding get_child set_child
  get_child-set_child k j m none_left = refl
  get_child-set_child k j m (child i n cs) =
      ground (arith, get_child-set_child k j m cs, str_eq_iff k j, str_eq_iff i k, str_eq_iff i j)

  set_child-get_child :
      (k : Str) (m : Node S) (cs : Children S) → get_child k cs ≡ ptr m → set_child k m cs ≡ cs
  unfolding get_child set_child
  set_child-get_child k m none_left h = cc
  set_child-get_child k m (child i n cs) h = ground (arith, set_child-get_child k m cs)

  pub route_at-empty_node : (p : List Segment) → route_at p (empty_node {S = S}) ≡ none
  unfolding route_at
  route_at-empty_node [] = refl
  route_at-empty_node (static s ∷ p) = refl
  route_at-empty_node (param x ∷ p) = ground arith
  route_at-empty_node (wildcard x ∷ p) = ground arith

  at_ptr-or_empty :
      (p : List Segment) (m : NodePtr S) → route_at p (or_empty m) ≡ at_ptr (route_at p) m
  at_ptr-or_empty p absent = route_at-empty_node p
  at_ptr-or_empty p (ptr n) = refl

  pub NodePtr-cases : (m : NodePtr S) → (m ≡ absent) ⊎ ((n : Node S) × (m ≡ ptr n))
  NodePtr-cases absent = inl refl
  NodePtr-cases (ptr n) = inr (n, refl)

  -- Below a node that Add has just made there is nothing to conflict with.
  insert_at-empty_node : (r : Route S) (segs : List Segment) → (insert_at r segs empty_node).0 ≡ nil
  unfolding insert_at get_child
  insert_at-empty_node r [] = refl
  insert_at-empty_node r (static s ∷ segs) = insert_at-empty_node r segs
  insert_at-empty_node r (param x ∷ segs) = insert_at-empty_node r segs
  insert_at-empty_node r (wildcard x ∷ segs) = insert_at-empty_node r segs

  insert_at-route_at :
      (r : Route S) (segs p : List Segment) (n : Node S)
      → (insert_at r segs n).0 ≡ nil
      → route_at p (insert_at r segs n).1
        ≡ (if pattern_eq segs p then registered r else route_at p n)
  unfolding insert_at route_at pattern_eq
  insert_at-route_at r [] [] (node cs q px w wx _) h = refl
  insert_at-route_at r [] (static s ∷ p) (node cs q px w wx _) h = refl
  insert_at-route_at r [] (param s ∷ p) (node cs q px w wx _) h = refl
  insert_at-route_at r [] (wildcard s ∷ p) (node cs q px w wx _) h = refl
  insert_at-route_at r (static s ∷ segs) [] (node cs q px w wx _) h = refl
  insert_at-route_at r (static s ∷ segs) (static t ∷ p) (node cs q px w wx _) h = ground (
    arith,
    insert_at-route_at r segs p (or_empty (get_child s cs)),
    get_child-set_child s t (insert_at r segs (or_empty (get_child s cs))).1 cs,
    at_ptr-or_empty p (get_child s cs),
    str_eq_iff s t,
  )
  insert_at-route_at r (static s ∷ segs) (param t ∷ p) (node cs q px w wx _) h = refl
  insert_at-route_at r (static s ∷ segs) (wildcard t ∷ p) (node cs q px w wx _) h = refl
  insert_at-route_at r (param x ∷ segs) [] (node cs absent px w wx _) h = refl
  insert_at-route_at r (param x ∷ segs) (static t ∷ p) (node cs absent px w wx _) h = refl
  insert_at-route_at r (param x ∷ segs) (param t ∷ p) (node cs absent px w wx _) h = ground (
    arith,
    insert_at-route_at r segs p empty_node (insert_at-empty_node r segs),
    route_at-empty_node p,
    str_eq_iff x t,
  )
  insert_at-route_at r (param x ∷ segs) (wildcard t ∷ p) (node cs absent px w wx _) h = refl
  insert_at-route_at r (param x ∷ segs) [] (node cs (ptr m) px w wx _) h = ground arith
  insert_at-route_at r (param x ∷ segs) (static t ∷ p) (node cs (ptr m) px w wx _) h = ground arith
  insert_at-route_at r (param x ∷ segs) (param t ∷ p) (node cs (ptr m) px w wx _) h =
      ground
        (arith, insert_at-route_at r segs p m, str_eq_iff x t, str_eq_iff px x, str_eq_iff px t)
  insert_at-route_at r (param x ∷ segs) (wildcard t ∷ p) (node cs (ptr m) px w wx _) h =
      ground arith
  insert_at-route_at r (wildcard x ∷ segs) [] (node cs q px absent wx _) h = refl
  insert_at-route_at r (wildcard x ∷ segs) (static t ∷ p) (node cs q px absent wx _) h = refl
  insert_at-route_at r (wildcard x ∷ segs) (param t ∷ p) (node cs q px absent wx _) h = refl
  insert_at-route_at r (wildcard x ∷ segs) (wildcard t ∷ p) (node cs q px absent wx _) h = ground (
    arith,
    insert_at-route_at r segs p empty_node (insert_at-empty_node r segs),
    route_at-empty_node p,
    str_eq_iff x t,
  )
  insert_at-route_at r (wildcard x ∷ segs) [] (node cs q px (ptr m) wx _) h = ground arith
  insert_at-route_at r (wildcard x ∷ segs) (static t ∷ p) (node cs q px (ptr m) wx _) h =
      ground arith
  insert_at-route_at r (wildcard x ∷ segs) (param t ∷ p) (node cs q px (ptr m) wx _) h =
      ground arith
  insert_at-route_at r (wildcard x ∷ segs) (wildcard t ∷ p) (node cs q px (ptr m) wx _) h =
      ground
        (arith, insert_at-route_at r segs p m, str_eq_iff x t, str_eq_iff wx x, str_eq_iff wx t)

  -- A conflict is found before anything is written.
  insert_at-conflict :
      (r : Route S) (segs : List Segment) (n : Node S)
      → is_nil (insert_at r segs n).0 ≡ false
      → (insert_at r segs n).1 ≡ n
  unfolding insert_at
  insert_at-conflict r [] (node cs q px w wx _) h = cc
  insert_at-conflict r (static s ∷ segs) (node cs q px w wx _) h =
      elim (NodePtr-cases (get_child s cs)) [
        | inl new ↦ ground (arith, insert_at-empty_node r segs)
        | inr (m, old) ↦ ground (arith, insert_at-conflict r segs m, set_child-get_child s m cs)
      ]
  insert_at-conflict r (param x ∷ segs) (node cs absent px w wx _) h =
      ground (arith, insert_at-empty_node r segs)
  insert_at-conflict r (param x ∷ segs) (node cs (ptr m) px w wx _) h =
      ground (arith, insert_at-conflict r segs m)
  insert_at-conflict r (wildcard x ∷ segs) (node cs q px absent wx _) h =
      ground (arith, insert_at-empty_node r segs)
  insert_at-conflict r (wildcard x ∷ segs) (node cs q px (ptr m) wx _) h =
      ground (arith, insert_at-conflict r segs m)

  insert_at-refines :
      (r : Route S) (segs : List Segment) (n : Node S) (p : List Segment)
      → route_at p (insert_at r segs n).1 ≡ (
          if is_nil (insert_at r segs n).0 && pattern_eq segs p then registered r else route_at p n)
  insert_at-refines r segs n p = elim (Bool-cases (is_nil (insert_at r segs n).0)) [
    | inl fine ↦ rw fine (insert_at-route_at r segs p n (eq-nil_of_is_nil _ fine))
    | inr failed ↦ rw (failed, insert_at-conflict r segs n failed)
  ]

  -- For every pattern: if Add reports no error, the trie then holds the new route under the pattern
  -- of the pieces, and what it held before under every other pattern; if it reports one, the trie
  -- is as it was.
  pub insert-refines_update :
      (cfg : RouterConfig) (r : Route S) (parts : List Str) (n : Node S) (p : List Segment)
      → route_at p (insert cfg r parts n).1 ≡ (
          if is_nil (insert cfg r parts n).0 && pattern_eq (segments cfg parts) p
          then registered r
          else route_at p n)
  insert-refines_update cfg r parts n p =
      rw insert-eq-insert_at (insert_at-refines r (segments cfg parts) n p)
