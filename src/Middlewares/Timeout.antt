-- ===== src/Middlewares/Timeout.antt =====
-- middlewares/timeout.go: Timeout, with the part of ServeHTTP (amaro.go) that takes contexts from the
-- pool and puts them back. Requests are served at the same time, as a relation of steps: contexts are
-- at addresses, and a goroutine runs its handler on one of them, one access after another. While the
-- request's goroutine waits in the select it reads and writes nothing, so that only the handler's
-- goroutine has a task; from the deadline on, each of the two has its own. The App's error handler is
-- one access. Timeout stands right behind the App's own chain; panics and the request's own deadline
-- are not modelled.
pub mod Owners
pub mod Reuse
pub mod Alone
use amaro.Prelude.{ℕ, suc, ◌≡◌, ◌⊎◌, none, List, [], ◌∷◌, ◌++◌, codes, ◌==◌, if◌then◌else◌, arith}
use amaro.Errors.{Error, plain}
use amaro.Http.{Writer, Request}
use amaro.Routing.{Router}
use amaro.Context.{
  Context, Outcome, returned, panicked, Act, ◌>>=◌, ◌>>◌, pure, status, reset, new_context,
}
use amaro.App.{App, handle_error}

-- A handler that is running: it has returned its error, or it reads and writes the context and the
-- shared memory once more and goes on with what it read.
pub data Job (S : Type 0) : Type 0 where
  done : Error → Job S
  access : (Context → S → Context × S) → (Context → S → Job S) → Job S

-- Who runs the job: the request's goroutine, the handler's goroutine while the request's waits for it
-- in the select, or the same when the request's no longer does. A request that is closing has answered
-- and is about to put its context back.
pub data Role : Type 0 where
  serving : Role
  timed : Role
  closing : Role
  abandoned : Role

pub record Task (S : Type 0) : Type 0 where
  pub address : ℕ
  pub job : Job S
  pub role : Role

-- `fresh` is the address of the next context that the pool makes.
pub record System (S : Type 0) : Type 0 where
  pub contexts : ℕ → Context
  pub shared : S
  pub pool : List ℕ
  pub fresh : ℕ
  pub tasks : List (Task S)

-- The memory with another context at the address.
abbrev pub put_at : ℕ → Context → (ℕ → Context) → ℕ → Context
put_at a c contexts b = if a == b then c else contexts b

pub put_at-same : (a : ℕ) (c : Context) (contexts : ℕ → Context) → put_at a c contexts a ≡ c
put_at-same a c contexts = ground arith

-- The error of the context's deadline.
abbrev pub deadline_exceeded : Error
deadline_exceeded = plain (codes "context deadline exceeded")

-- The contexts and the shared memory after something at the address.
unfoldable pub contexts_after :
    {S : Type 0} → ℕ → (Context → S → Context × S) → System S → ℕ → Context
contexts_after a f σ = put_at a (f (σ.contexts a) σ.shared).0 σ.contexts

unfoldable pub shared_after : {S : Type 0} → ℕ → (Context → S → Context × S) → System S → S
shared_after a f σ = (f (σ.contexts a) σ.shared).1

module _ {S R : Type 0} (ops : Router S R) (app : App S R) where
  abbrev pub final : Outcome S (Unit {0}) → Context × S
  final (returned _ c s) = (c, s)
  final (panicked _ c s) = (c, s)

  -- The end of ServeHTTP, behind the App's handler: the error handler, if there is an error.
  unfoldable pub conclude : Act S Error → Context → S → Context × S
  conclude result c s = final ((result >>= handle_error ops app) c s)

  -- The select's second case: WriteHeader, and the return of the deadline's error.
  unfoldable pub timed_out : Job S
  unfolding status
  timed_out = access (λ c s. final (status 503 c s)) (λ c s. done deadline_exceeded)

  -- One step of one goroutine.
  pub data Step : System S → System S → Type 0 where
    -- pool.Get finds a context, or makes one; Reset, and the handler starts, behind Timeout or not
    take :
        (before after : List ℕ) (a : ℕ) (w : Writer) (r : Request) (job : Job S) (role : Role)
        (σ : System S)
        → σ.pool ≡ before ++ (a ∷ after)
        → (role ≡ serving) ⊎ (role ≡ timed)
        → Step σ (record σ {
          contexts = contexts_after a (λ c s. (reset w r c, s)) σ;
          shared = shared_after a (λ c s. (reset w r c, s)) σ;
          pool = before ++ after;
          tasks = record { address = a; job = job; role = role } ∷ σ.tasks;
        })
    make :
        (w : Writer) (r : Request) (job : Job S) (role : Role) (σ : System S)
        → (role ≡ serving) ⊎ (role ≡ timed)
        → Step σ (record σ {
          contexts = contexts_after σ.fresh (λ _ s. (reset w r (new_context none none []), s)) σ;
          shared = shared_after σ.fresh (λ _ s. (reset w r (new_context none none []), s)) σ;
          fresh = suc σ.fresh;
          tasks = record { address = σ.fresh; job = job; role = role } ∷ σ.tasks;
        })
    -- the pool drops a context that it has
    drop :
        (before after : List ℕ) (a : ℕ) (σ : System S)
        → σ.pool ≡ before ++ (a ∷ after)
        → Step σ (record σ { pool = before ++ after })
    run :
        (before after : List (Task S)) (a : ℕ) (f : Context → S → Context × S)
        (k : Context → S → Job S) (role : Role) (σ : System S)
        → σ.tasks ≡ before ++ (record { address = a; job = access f k; role = role } ∷ after)
        → Step σ (record σ {
          contexts = contexts_after a f σ;
          shared = shared_after a f σ;
          tasks =
              before
              ++ (record { address = a; job = k (σ.contexts a) σ.shared; role = role } ∷ after);
        })
    -- the chain has returned, with Timeout by the select's first case: the error handler, if there is
    -- an error
    answer :
        (before after : List (Task S)) (a : ℕ) (err : Error) (role : Role) (σ : System S)
        → σ.tasks ≡ before ++ (record { address = a; job = done err; role = role } ∷ after)
        → (role ≡ serving) ⊎ (role ≡ timed)
        → Step σ (record σ {
          contexts = contexts_after a (conclude (pure err)) σ;
          shared = shared_after a (conclude (pure err)) σ;
          tasks = before ++ (record { address = a; job = done err; role = closing } ∷ after);
        })
    -- the deferred pool.Put
    put_back :
        (before after : List (Task S)) (a : ℕ) (err : Error) (σ : System S)
        → σ.tasks ≡ before ++ (record { address = a; job = done err; role = closing } ∷ after)
        → Step σ (record σ { pool = a ∷ σ.pool; tasks = before ++ after })
    -- the deadline passes: the request's goroutine goes on, and so does the handler's
    time_out :
        (before after : List (Task S)) (a : ℕ) (job : Job S) (σ : System S)
        → σ.tasks ≡ before ++ (record { address = a; job = job; role = timed } ∷ after)
        → Step σ (record σ {
          tasks =
              before
              ++ (record { address = a; job = timed_out; role = serving }
                  ∷ (record { address = a; job = job; role = abandoned } ∷ after));
        })
    -- the goroutine's handler returns to nobody
    vanish :
        (before after : List (Task S)) (a : ℕ) (err : Error) (σ : System S)
        → σ.tasks ≡ before ++ (record { address = a; job = done err; role = abandoned } ∷ after)
        → Step σ (record σ { tasks = before ++ after })

  pub data Steps : System S → System S → Type 0 where
    stay : (σ : System S) → Steps σ σ
    go : (σ τ υ : System S) → Step σ τ → Steps τ υ → Steps σ υ

  pub Steps-then : (σ τ υ : System S) → Steps σ τ → Step τ υ → Steps σ υ
  Steps-then σ τ υ (stay _) step = go σ υ υ step (stay υ)
  Steps-then σ τ υ (go _ ρ _ step' steps) step = go σ ρ υ step' (Steps-then ρ τ υ steps step)
