-- ===== src/Routing/Compiled.antt =====
-- The loop of Compile wraps the handler from the last middleware to the first, so that the first
-- one runs outermost.
use amaro.Prelude.{ℕ, zero, suc, ◌≡◌, refl, ap, ◌∙◌, List, [], ◌∷◌, ◌++◌, foldr, length}
use mathlib.Core.List.{foldr-append}
use amaro.Context.{Handler, Middleware}
use amaro.Routing.{at, compile_from, compile, chain}

module _ {S : Type 0} where
  abbrev pub wrapped : Handler S → List (Middleware S) → Handler S
  wrapped handler ms = foldr (λ m h. m h) handler ms

  compile_from-cons :
      (i : ℕ) (m : Middleware S) (ms : List (Middleware S)) (h : Handler S)
      → compile_from (suc i) (m ∷ ms) h ≡ m (compile_from i ms h)
  unfolding compile_from
  compile_from-cons zero m ms h = refl
  compile_from-cons (suc i) m ms h = compile_from-cons i m ms (at ms i h)

  compile-eq-wrapped : (h : Handler S) (ms : List (Middleware S)) → compile h ms ≡ wrapped h ms
  unfolding compile
  compile-eq-wrapped h [] = refl
  compile-eq-wrapped h (m ∷ ms) =
      compile_from-cons (length ms) m ms h ∙ ap m (compile-eq-wrapped h ms)

  compile-append :
      (h : Handler S) (ms ns : List (Middleware S))
      → compile h (ms ++ ns) ≡ compile (compile h ns) ms
  compile-append h ms ns = simp compile-eq-wrapped (foldr-append (λ (m : Middleware S). m) h ms ns)

  -- Compile puts the handler inside the last middleware, that one inside the one before it, and so
  -- on to the first; the middlewares of one call may be split over two, the outer ones second; and
  -- Chain makes the same of them as one middleware.
  pub compile-order :
      (h : Handler S) (ms ns : List (Middleware S))
      → (compile h ms ≡ foldr (λ m g. m g) h ms)
        × (compile h (ms ++ ns) ≡ compile (compile h ns) ms)
        × (chain ms h ≡ compile h ms)
  unfolding chain compile
  compile-order h ms ns = (compile-eq-wrapped h ms, compile-append h ms ns, refl)

  pub compile-cons :
      (h : Handler S) (m : Middleware S) (ms : List (Middleware S))
      → compile h (m ∷ ms) ≡ m (compile h ms)
  unfolding compile
  compile-cons h m ms = compile_from-cons (length ms) m ms h
