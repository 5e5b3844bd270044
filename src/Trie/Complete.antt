-- ===== src/Trie/Complete.antt =====
-- Find finds the route that is stored under the pattern it prefers.
use amaro.Prelude.{
  ℕ, zero, suc, ◌<◌, ◌≡◌, inl, inr, subst, List, [], ◌∷◌, Option, some, Str, is_empty, arith,
  Bool-cases, length,
}
use amaro.Strings.{cut}
use amaro.Strings.Parts.{parts, parts-cut, length-cut_lt}
use amaro.Context.{Context}
use amaro.Routing.{Route, Segment, static, param, wildcard, FindResult, found}
use amaro.Trie.{Node, node, absent, ptr, get_child}
use amaro.Trie.Table.{route_at, NodePtr-cases}
use amaro.Trie.Choice.{Prefers}
use amaro.Trie.Search.{note_param, at_end, next_round, after_round, find_loop}

module _ {S : Type 0} where
  Finds : Route S → Option (FindResult S × Option Context) → Type 0
  Finds r o = (ctx : Option Context) × (o ≡ some (found r, ctx))

  at_end-found :
      (p : List Segment) (n : Node S) (ctx : Option Context) (r : Route S)
      → route_at p n ≡ some r
      → Prefers p [] n
      → Finds r (some (at_end n ctx))
  unfolding at_end route_at Finds
  at_end-found [] (node cs q x w y own) ctx r h k = (ctx, ground arith)
  at_end-found (wildcard name ∷ []) (node cs q x absent y own) ctx r h k = absurd (ground arith)
  at_end-found (wildcard name ∷ []) (node cs q x (ptr (node _ _ _ _ _ m)) y own) ctx r h k =
      (note_param y [] ctx, ground arith)
  at_end-found (static s ∷ p) n ctx r h k = elim k [ ]
  at_end-found (param s ∷ p) n ctx r h k = elim k [ ]
  at_end-found (wildcard s ∷ t ∷ p) n ctx r h k = elim k [ ]

  -- A round goes on to the node below with the rest of the pattern, or finds the route.
  next_round-found :
      (rest : Node S → Option Context → Option (FindResult S × Option Context)) (path : Str)
      (p : List Segment) (v : Str) (vs : List Str) (n : Node S) (ctx : Option Context) (r : Route S)
      → ((p' : List Segment) (m : Node S) (k : Option Context)
          → route_at p' m ≡ some r
          → Prefers p' vs m
          → Finds r (rest m k))
      → route_at p n ≡ some r
      → Prefers p (v ∷ vs) n
      → Finds r (after_round rest (next_round v path n ctx))
  unfolding next_round route_at Finds
  next_round-found rest path [] v vs n ctx r ih h k = elim k [ ]
  next_round-found rest path (static s ∷ p) v vs (node cs q x w y own) ctx r ih h k =
      elim (NodePtr-cases (get_child s cs)) [
        | inl e ↦ absurd (ground arith)
        | inr (m, e) ↦
            rw (subst (λ (t : Str). get_child t cs ≡ ptr m) k.0 e, next_round)
              (ih p m ctx (ground arith) (rw e at k.1))
      ]
  next_round-found rest path (param s ∷ p) v vs (node cs absent x w y own) ctx r ih h k =
      absurd (ground arith)
  next_round-found rest path (param s ∷ p) v vs (node cs (ptr m) x w y own) ctx r ih h k =
      rw (k.1, next_round) (ih p m (note_param x v ctx) (ground arith) k.2)
  next_round-found rest path (wildcard s ∷ []) v vs (node cs q x absent y own) ctx r ih h k =
      absurd (ground arith)
  next_round-found rest path (wildcard s ∷ []) v vs
        (node cs absent x (ptr (node _ _ _ _ _ m)) y own) ctx r ih h k =
      rw (k.1, next_round) (note_param y path ctx, ground arith)
  next_round-found rest path (wildcard s ∷ []) v vs (node cs (ptr _) x (ptr m) y own) ctx r ih h k =
      absurd (ground arith)
  next_round-found rest path (wildcard s ∷ t ∷ p) v vs n ctx r ih h k = elim k [ ]

  pub find_loop-found :
      (fuel : ℕ) (path : Str) (n : Node S) (ctx : Option Context) (p : List Segment) (r : Route S)
      → length path < fuel
      → route_at p n ≡ some r
      → Prefers p (parts b'/' path) n
      → (ctx' : Option Context) × (find_loop fuel path n ctx ≡ some (found r, ctx'))
  unfolding find_loop Finds parts
  find_loop-found zero path n ctx p r lt h k = absurd (omega arith)
  find_loop-found (suc fuel) [] n ctx p r lt h k = at_end-found p n ctx r h k
  find_loop-found (suc fuel) (c ∷ s) n ctx p r lt h k =
      let (part, rest) = cut b'/' (c ∷ s) in
      let shorter : length rest < fuel = omega (arith, length-cut_lt b'/' c s) in
      elim (Bool-cases (is_empty part)) [
        | inl e ↦
            rw e (find_loop-found fuel rest n ctx p r shorter h (rw (parts-cut b'/' c s, e) at k))
        | inr e ↦ rw e (
            next_round-found (find_loop fuel rest) (c ∷ s) p part (parts b'/' rest) n ctx r
              (λ p' m k'. find_loop-found fuel rest m k' p' r shorter) h
              (rw (parts-cut b'/' c s, e) at k))
      ]
