-- ===== src/Trie/Choice.antt =====
-- Which pattern Find settles on. Find never goes back: a static child shadows the param and the
-- wildcard beside it, and a param shadows the wildcard, also where the walk then fails below.
use amaro.Prelude.{◌≡◌, List, [], ◌∷◌, none, Str}
use amaro.Routing.{Segment, static, param, wildcard}
use amaro.Trie.{Node, node, absent, get_child, or_empty}
use amaro.Trie.Table.{registered}

module _ {S : Type 0} where
  -- Walking down from the node by the pieces, the branches that Find takes are those of the pattern.
  abbrev pub Prefers : List Segment → List Str → Node S → Type 0
  Prefers [] [] n = Unit
  Prefers (static s ∷ p) (v ∷ vs) (node cs q x w y r) =
      (s ≡ v) × Prefers p vs (or_empty (get_child s cs))
  Prefers (param name ∷ p) (v ∷ vs) (node cs q x w y r) =
      (x ≡ name) × (get_child v cs ≡ absent) × Prefers p vs (or_empty q)
  Prefers (wildcard name ∷ []) [] (node cs q x w y r) = (y ≡ name) × (registered r ≡ none)
  Prefers (wildcard name ∷ []) (v ∷ vs) (node cs q x w y r) =
      (y ≡ name) × (get_child v cs ≡ absent) × (q ≡ absent)
  Prefers _ _ n = ⊥
