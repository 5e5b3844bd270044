-- ===== src/Trie/Matching.antt =====
-- When a pattern matches a path, as a relation that does not mention the trie or the order in which
-- Find tries the branches; and that what Find returns is stored under a pattern that matches.
use amaro.Prelude.{
  ℕ, zero, suc, ◌≡◌, refl, ◌≢◌, ◌⊎◌, inl, inr, ap, true, false, List, [], ◌∷◌, ◌++◌, Option, none,
  some, Str, str_eq_self, is_empty, All, arith, Bool-cases, Option-cases,
}
use amaro.Strings.{cut}
use amaro.Strings.Parts.{parts, parts-cut, parts-sep, cut-All_ne, cut-append}
use amaro.Context.{Context, Param}
use amaro.Routing.{Route, Segment, static, param, wildcard, FindResult, found}
use amaro.Trie.{Node, node, NodePtr, absent, ptr, Children, get_child}
use amaro.Trie.Table.{registered, route_at, NodePtr-cases}
use amaro.Trie.Choice.{Prefers}
use amaro.Trie.Search.{
  note_param, at_end, next_round, after_round, find_loop, route_or, own_route, route_not_found,
}

-- `piece` stands at the front of `path`, up to a slash or the end, and `rest` is behind it.
pub record IsPiece (piece path rest : Str) : Type 0 where
  pub filled : piece ≢ []
  pub no_slash : All (λ c. c ≢ b'/') piece
  pub splits : (path ≡ piece ++ (b'/' ∷ rest)) ⊎ ((path ≡ piece) × (rest ≡ []))

abbrev pub binding : Str → Str → Param
binding key value = record { key = key; value = value }

pub data Matches : List Segment → Str → List Param → Type 0 where
  -- Slashes in front of a piece or at the end do not count.
  slash :
      {p : List Segment} {path rest : Str} {ps : List Param}
      → path ≡ b'/' ∷ rest
      → Matches p rest ps
      → Matches p path ps
  end : Matches [] [] []
  literal :
      {p : List Segment} {piece path rest : Str} {ps : List Param}
      → IsPiece piece path rest
      → Matches p rest ps
      → Matches (static piece ∷ p) path ps
  argument :
      {p : List Segment} {name piece path rest : Str} {ps : List Param}
      → IsPiece piece path rest
      → Matches p rest ps
      → Matches (param name ∷ p) path (binding name piece ∷ ps)
  -- A wildcard takes all that is left, slashes included.
  remainder :
      {name piece path rest : Str}
      → IsPiece piece path rest
      → Matches (wildcard name ∷ []) path (binding name path ∷ [])
  nothing_left : {name : Str} → Matches (wildcard name ∷ []) [] (binding name [] ∷ [])

-- The context after AddParam was called for each of the bindings.
abbrev pub noted : List Param → Option Context → Option Context
noted [] ctx = ctx
noted (p ∷ ps) ctx = noted ps (note_param p.key p.value ctx)

cut-IsPiece :
    (c : ℕ) (s : Str)
    → is_empty (cut b'/' (c ∷ s)).0 ≡ false
    → IsPiece (cut b'/' (c ∷ s)).0 (c ∷ s) (cut b'/' (c ∷ s)).1
cut-IsPiece c s h = record {
  filled = λ e. ground (arith, e);
  no_slash = cut-All_ne b'/' (c ∷ s);
  splits = cut-append b'/' (c ∷ s);
}

cut-slash :
    (c : ℕ) (s : Str) → is_empty (cut b'/' (c ∷ s)).0 ≡ true → c ∷ s ≡ b'/' ∷ (cut b'/' (c ∷ s)).1
unfolding cut
cut-slash c s h = ground arith

module _ {S : Type 0} where
  -- The route is stored under a pattern that matches, and the bindings are those of the match.
  pub record IsMatch (path : Str) (n : Node S) (ctx : Option Context) (r : Route S)
      (ctx' : Option Context) : Type 0 where
    pub pattern_of : List Segment
    pub bindings : List Param
    pub stored : route_at pattern_of n ≡ some r
    pub matched : Matches pattern_of path bindings
    pub preferred : Prefers pattern_of (parts b'/' path) n
    pub context : ctx' ≡ noted bindings ctx

  registered_of_route_or :
      (x : Route S) {r : Route S} → route_or x route_not_found ≡ found r → registered x ≡ some r
  registered_of_route_or x h = ground arith

  abbrev wildcard_only : NodePtr S → Str → Str → Option Context → FindResult S × Option Context
  wildcard_only absent wx value ctx = (route_not_found, ctx)
  wildcard_only (ptr m) wx value ctx =
      (route_or (own_route m) route_not_found, note_param wx value ctx)

  -- The wildcard child answers.
  route_at-wildcard :
      (cs : Children S) (p : NodePtr S) (px wx : Str) (m : Node S) (own r : Route S)
      → registered (own_route m) ≡ some r
      → route_at (wildcard wx ∷ []) (node cs p px (ptr m) wx own) ≡ some r
  unfolding route_at
  route_at-wildcard cs p px wx (node _ _ _ _ _ _) own r h = ground (arith, str_eq_self wx)

  wildcard_at_end :
      (cs : Children S) (p : NodePtr S) (px : Str) (w : NodePtr S) (wx : Str) (own : Route S)
      (ctx ctx' : Option Context) (r : Route S)
      → registered own ≡ none
      → wildcard_only w wx [] ctx ≡ (found r, ctx')
      → IsMatch [] (node cs p px w wx own) ctx r ctx'
  unfolding parts
  wildcard_at_end cs p px absent wx own ctx ctx' r unused h = absurd (ground arith)
  wildcard_at_end cs p px (ptr m) wx own ctx ctx' r unused h = record {
    pattern_of = wildcard wx ∷ [];
    bindings = binding wx [] ∷ [];
    stored =
        route_at-wildcard cs p px wx m own r
          (registered_of_route_or (own_route m) (ap (λ t. t.0) h));
    matched = nothing_left;
    preferred = (refl, unused);
    context = ground arith;
  }

  at_end-IsMatch :
      (n : Node S) (ctx ctx' : Option Context) (r : Route S)
      → at_end n ctx ≡ (found r, ctx')
      → IsMatch [] n ctx r ctx'
  unfolding at_end route_at parts
  at_end-IsMatch (node cs p px w wx own) ctx ctx' r h = elim (Option-cases own.handler) [
    | inr (hd, e) ↦ record {
      pattern_of = [];
      bindings = [];
      stored = ground arith;
      matched = end;
      preferred = tt;
      context = ground arith;
    }
    | inl e ↦ wildcard_at_end cs p px w wx own ctx ctx' r (ground arith) (ground arith)
  ]

  after_slash :
      {path rest : Str} {n : Node S} {ctx ctx' : Option Context} {r : Route S}
      → path ≡ b'/' ∷ rest
      → IsMatch rest n ctx r ctx'
      → IsMatch path n ctx r ctx'
  after_slash e h = record {
    pattern_of = h.pattern_of;
    bindings = h.bindings;
    stored = h.stored;
    matched = slash e h.matched;
    preferred = rw (e, parts-sep) h.preferred;
    context = h.context;
  }

  module _ {part path rest : Str} {ctx ctx' : Option Context} {r : Route S}
      (piece : IsPiece part path rest) (pieces_eq : parts b'/' path ≡ part ∷ parts b'/' rest) where
    static_child :
        (cs : Children S) (p : NodePtr S) (px : Str) (w : NodePtr S) (wx : Str) (own : Route S)
        (m : Node S)
        → get_child part cs ≡ ptr m
        → IsMatch rest m ctx r ctx'
        → IsMatch path (node cs p px w wx own) ctx r ctx'
    unfolding route_at
    static_child cs p px w wx own m e h = record {
      pattern_of = static part ∷ h.pattern_of;
      bindings = h.bindings;
      stored = rw e h.stored;
      matched = literal piece h.matched;
      preferred = rw pieces_eq (refl, rw e h.preferred);
      context = h.context;
    }

    param_child :
        (cs : Children S) (m : Node S) (px : Str) (w : NodePtr S) (wx : Str) (own : Route S)
        → get_child part cs ≡ absent
        → IsMatch rest m (note_param px part ctx) r ctx'
        → IsMatch path (node cs (ptr m) px w wx own) ctx r ctx'
    unfolding route_at
    param_child cs m px w wx own missing h = record {
      pattern_of = param px ∷ h.pattern_of;
      bindings = binding px part ∷ h.bindings;
      stored = rw str_eq_self h.stored;
      matched = argument piece h.matched;
      preferred = rw pieces_eq (refl, missing, h.preferred);
      context = h.context;
    }

    wildcard_child :
        (cs : Children S) (px : Str) (w : NodePtr S) (wx : Str) (own : Route S)
        → get_child part cs ≡ absent
        → wildcard_only w wx path ctx ≡ (found r, ctx')
        → IsMatch path (node cs absent px w wx own) ctx r ctx'
    wildcard_child cs px absent wx own missing h = absurd (ground arith)
    wildcard_child cs px (ptr m) wx own missing h = record {
      pattern_of = wildcard wx ∷ [];
      bindings = binding wx path ∷ [];
      stored =
          route_at-wildcard cs absent px wx m own r
            (registered_of_route_or (own_route m) (ap (λ t. t.0) h));
      matched = remainder piece;
      preferred = rw pieces_eq (refl, missing, refl);
      context = ground arith;
    }

    beside_static :
        (cs : Children S) (p : NodePtr S) (px : Str) (w : NodePtr S) (wx : Str) (own : Route S)
        → get_child part cs ≡ absent
        → (later : Node S → Option Context → Option (FindResult S × Option Context))
        → ((m : Node S) (k : Option Context)
            → later m k ≡ some (found r, ctx')
            → IsMatch rest m k r ctx')
        → after_round later (next_round part path (node cs p px w wx own) ctx)
          ≡ some (found r, ctx')
        → IsMatch path (node cs p px w wx own) ctx r ctx'
    unfolding next_round
    beside_static cs (ptr m) px w wx own e later ih h =
        param_child cs m px w wx own e (ih m (note_param px part ctx) (rw (e, next_round) at h))
    beside_static cs absent px absent wx own e later ih h = absurd (ground arith)
    beside_static cs absent px (ptr m) wx own e later ih h =
        wildcard_child cs px (ptr m) wx own e (ground arith)

    -- A round that leads to an answer, if the later rounds do.
    next_round-IsMatch :
        (later : Node S → Option Context → Option (FindResult S × Option Context)) (n : Node S)
        → ((m : Node S) (k : Option Context)
            → later m k ≡ some (found r, ctx')
            → IsMatch rest m k r ctx')
        → after_round later (next_round part path n ctx) ≡ some (found r, ctx')
        → IsMatch path n ctx r ctx'
    unfolding next_round
    next_round-IsMatch later (node cs p px w wx own) ih h =
        elim (NodePtr-cases (get_child part cs)) [
          | inr (m, e) ↦ static_child cs p px w wx own m e (ih m ctx (rw (e, next_round) at h))
          | inl e ↦ beside_static cs p px w wx own e later ih h
        ]

  -- What the loop finds is stored under a pattern that matches the path.
  pub find_loop-IsMatch :
      (fuel : ℕ) (path : Str) (n : Node S) (ctx ctx' : Option Context) (r : Route S)
      → find_loop fuel path n ctx ≡ some (found r, ctx')
      → IsMatch path n ctx r ctx'
  unfolding find_loop
  find_loop-IsMatch zero path n ctx ctx' r h = cc
  find_loop-IsMatch (suc fuel) [] n ctx ctx' r h = at_end-IsMatch n ctx ctx' r (cc)
  find_loop-IsMatch (suc fuel) (c ∷ s) n ctx ctx' r h =
      let (part, rest) = cut b'/' (c ∷ s) in
      let later = λ (m : Node S) (k : Option Context). find_loop-IsMatch fuel rest m k ctx' r in
      elim (Bool-cases (is_empty part)) [
        | inl e ↦ after_slash (cut-slash c s e) (later n ctx (rw (e, find_loop) at h))
        | inr e ↦
            next_round-IsMatch (cut-IsPiece c s e) (rw (parts-cut b'/' c s, e))
              (find_loop fuel rest) n later (rw (e, find_loop) at h)
      ]
