-- ===== src/Middlewares/Limiter/Isolation.antt =====
-- Clients do not spend each other's tokens.
use amaro.Prelude.{◌≡◌, refl, ◌∙◌, ℕ, Bool, false, some, Str, codes, str_eq, if◌then◌else◌}
use amaro.Prelude.Assoc.{Assoc, load, load-store}
use amaro.Http.{Request}
use amaro.Context.{Context, Handler, write_string}
use amaro.Context.Steps.{the_request-bind}
use amaro.Middlewares.Limiter.{Floats, Client, attempt, rate_limiter}

module _ {F G : Type 0} (floats : Floats F) (clock : G → ℕ × G) (requests_per_second : F)
    (burst : ℕ) where
  abbrev attempt_here : Str → Assoc (Client F) × G → Bool × (Assoc (Client F) × G)
  attempt_here = attempt floats clock requests_per_second burst

  -- A request goes on to the handler or is answered 429, by the client of its address alone: with any
  -- other clients in the map, as long as that one is the same and so is the time, the decision is the
  -- same; and every other client is left as it was.
  pub rate_limiter-isolates :
      (next : Handler (Assoc (Client F) × G)) (c : Context) (q : Request)
      (clients others : Assoc (Client F)) (g : G) (j : Str)
      → c.request ≡ some q
      → load q.remote_addr others ≡ load q.remote_addr clients
      → str_eq q.remote_addr j ≡ false
      → (rate_limiter floats clock requests_per_second burst next c (clients, g) ≡ (
          if (attempt_here q.remote_addr (others, g)).0
          then next c (attempt_here q.remote_addr (clients, g)).1
          else write_string 429
              (codes "Too Many Requests")
              c
              ((attempt_here q.remote_addr (clients, g)).1)))
        × (load j ((attempt_here q.remote_addr (clients, g)).1.0) ≡ load j clients)
  unfolding rate_limiter attempt
  rate_limiter-isolates next c q clients others g j asked same apart = (
    the_request-bind c (clients, g) _ asked ∙ rw same refl,
    load-store q.remote_addr j _ clients ∙ rw apart refl,
  )
