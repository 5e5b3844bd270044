-- ===== src/Trie/Search/Total.antt =====
-- The loop of Find ends.
use amaro.Prelude.{
  ℕ, zero, suc, ◌<◌, ◌≡◌, refl, [], ◌∷◌, Option, some, Str, is_empty, length, arith, Bool-cases,
  inl, inr,
}
use amaro.Strings.{cut}
use amaro.Strings.Parts.{length-cut_lt}
use amaro.Context.{Context}
use amaro.Trie.{Node}
use amaro.Routing.{FindResult}
use amaro.Trie.Search.{Round, go_on, return, at_end, next_round, after_round, find_loop}

module _ {S : Type 0} where
  abbrev Returns : Option (FindResult S × Option Context) → Type 0
  Returns o = (result : FindResult S × Option Context) × (o ≡ some result)

  after_round_total :
      (rest : Node S → Option Context → Option (FindResult S × Option Context)) (round : Round S)
      → ((n : Node S) (ctx : Option Context) → Returns (rest n ctx))
      → Returns (after_round rest round)
  after_round_total rest (go_on n ctx) h = h n ctx
  after_round_total rest (return result ctx) h = ((result, ctx), refl)

  -- With more fuel than the path has bytes the loop returns, whatever the trie holds.
  pub find_loop_total :
      (fuel : ℕ) (path : Str) (n : Node S) (ctx : Option Context)
      → length path < fuel
      → (result : FindResult S × Option Context) × (find_loop fuel path n ctx ≡ some result)
  unfolding find_loop
  find_loop_total zero path n ctx h = absurd (omega arith)
  find_loop_total (suc fuel) [] n ctx h = (at_end n ctx, refl)
  find_loop_total (suc fuel) (c ∷ s) n ctx h =
      let (part, rest) = cut b'/' (c ∷ s) in
      let later = λ (m : Node S) (k : Option Context).
        find_loop_total fuel rest m k (omega (arith, length-cut_lt b'/' c s)) in
      elim (Bool-cases (is_empty part)) [
        | inl e ↦ rw e (later n ctx)
        | inr e ↦
            rw e (after_round_total (find_loop fuel rest) (next_round part (c ∷ s) n ctx) later)
      ]
