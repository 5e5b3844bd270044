-- ===== src/Middlewares/Timeout/Alone.antt =====
-- A request that is served alone and in time, against ServeHTTP as one call.
use amaro.Prelude.{ℕ, ◌≡◌, refl, sym, ap, ◌∙◌, ◌⊎◌, List, [], ◌∷◌}
use amaro.Errors.{Error}
use amaro.Http.{Writer, Request}
use amaro.Context.{Outcome, returned, panicked, Handler, pure, reset}
use amaro.Routing.{Router}
use amaro.App.{App, dispatch, handle_error, serve_http}
use amaro.App.Serving.{fresh, chain_of, serve_http-outcome}
use amaro.Middlewares.Timeout.{
  Job, done, access, Role, serving, timed, closing, Task, System, Steps, stay, go, Steps-then, take,
  run, answer, put_back, contexts_after, shared_after, final, conclude, put_at-same,
}

module _ {S : Type 0} where
  -- The handler that runs the job from its start to its end.
  unfoldable pub act_of : Job S → Handler S
  act_of (done err) c s = returned err c s
  act_of (access f k) c s = act_of (k c s) (f c s).0 (f c s).1

module _ {S R : Type 0} (ops : Router S R) (app : App S R) where
  abbrev one : ℕ → Role → Job S → List (Task S)
  one a role job = record { address = a; job = job; role = role } ∷ []

  -- The only task runs to its end.
  Steps-act_of :
      (a : ℕ) (role : Role) (job : Job S) (σ : System S)
      → σ.tasks ≡ one a role job
      → (σ' : System S) × (err : Error) × Steps ops app σ σ'
        × (σ'.tasks ≡ one a role (done err))
        × (σ'.pool ≡ σ.pool)
        × (act_of job (σ.contexts a) σ.shared ≡ returned err (σ'.contexts a) σ'.shared)
  unfolding act_of contexts_after shared_after
  Steps-act_of a role (done err) σ e = (σ, err, stay σ, e, refl, refl)
  Steps-act_of a role (access f k) σ e =
      let τ : System S = record σ {
        contexts = contexts_after a f σ;
        shared = shared_after a f σ;
        tasks = one a role (k (σ.contexts a) σ.shared);
      } in
      let (σ', err, steps, t, p, r) = Steps-act_of a role (k (σ.contexts a) σ.shared) τ refl in
      (
        σ',
        err,
        go σ τ σ' (run [] [] a f k role σ e) steps,
        t,
        p,
        rw (put_at-same a (f (σ.contexts a) σ.shared).0 σ.contexts) at r,
      )

  -- When no other request is served, the pool has a context and the App's chain does on the request
  -- what `job` does: the request can be taken, run and answered in time, behind Timeout or without it,
  -- and this leaves the context in its place and the shared memory as the call of ServeHTTP does, and
  -- the same contexts in the pool.
  pub alone-serve_http :
      (w : Writer) (r : Request) (job : Job S) (a : ℕ) (rest : List ℕ) (role : Role) (σ : System S)
      → σ.tasks ≡ []
      → σ.pool ≡ a ∷ rest
      → (role ≡ serving) ⊎ (role ≡ timed)
      → chain_of ops app (dispatch ops app) (fresh w r) σ.shared ≡ act_of job (fresh w r) σ.shared
      → (σ' : System S) × Steps ops app σ σ'
        × (σ'.tasks ≡ [])
        × (σ'.pool ≡ σ.pool)
        × ((σ'.contexts a, σ'.shared) ≡ final ops app (serve_http ops w r app σ.shared).0)
  unfolding contexts_after shared_after reset conclude dispatch
  alone-serve_http w r job a rest role σ idle e started h =
      let τ : System S = record σ {
        contexts = contexts_after a (λ c s. (reset w r c, s)) σ;
        shared = shared_after a (λ c s. (reset w r c, s)) σ;
        pool = rest;
        tasks = record { address = a; job = job; role = role } ∷ σ.tasks;
      } in
      let (υ, err, steps, t, p, k) =
        Steps-act_of a role job τ
          (ap (λ ts. record { address = a; job = job; role = role } ∷ ts) idle) in
      let ρ : System S = record υ {
        contexts = contexts_after a (conclude ops app (pure err)) υ;
        shared = shared_after a (conclude ops app (pure err)) υ;
        tasks = one a closing (done err);
      } in
      let σ' : System S = record ρ { pool = a ∷ υ.pool; tasks = [] } in
      let k' : act_of job (fresh w r) σ.shared ≡ returned err (υ.contexts a) υ.shared =
        rw (put_at-same a (fresh w r) σ.contexts) at k in
      let whole : (serve_http ops w r app σ.shared).0
          ≡ handle_error ops app err (υ.contexts a) υ.shared =
        serve_http-outcome ops w r σ.shared app ∙ ap settle (h ∙ k') in
      (
        σ',
        go σ τ σ' (take [] rest a w r job role σ e started) (
            Steps-then ops app τ ρ σ'
              (Steps-then ops app τ υ ρ steps (answer [] [] a err role υ t started))
              (put_back [] [] a err ρ refl)),
        refl,
        ap (λ p. a ∷ p) p ∙ sym e,
        rw whole (λ i. (
          put_at-same a (conclude ops app (pure err) (υ.contexts a) υ.shared).0 υ.contexts i,
          shared_after a (conclude ops app (pure err)) υ,
        )),
      )
    where
      settle : Outcome S Error → Outcome S (Unit {0})
      settle (returned err c s) = handle_error ops app err c s
      settle (panicked v c s) = panicked v c s
