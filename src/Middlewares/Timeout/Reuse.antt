-- ===== src/Middlewares/Timeout/Reuse.antt =====
-- What can follow a timeout: the handler that is left behind writes to the response of another request.
use amaro.Prelude.{ℕ, ◌≡◌, refl, inl, none, some, List, [], ◌∷◌, ◌++◌}
use amaro.Http.{Writer, Request}
use amaro.Context.{Context, pure, status, reset}
use amaro.Routing.{Router}
use amaro.App.{App}
use amaro.Middlewares.Timeout.{
  Job, done, access, serving, timed, closing, abandoned, Task, System, put_at-same, Step, Steps,
  stay, go, take, run, answer, put_back, time_out, contexts_after, shared_after, conclude, final,
  timed_out, deadline_exceeded,
}

module _ {S R : Type 0} (ops : Router S R) (app : App S R) where
  -- Whenever the deadline of a request can pass and the next request is `r`, with the response `w`,
  -- steps of the goroutines lead to a state in which `r` is served on the very context that the
  -- handler left behind goes on with, and what this handler does next is done to that context.
  pub time_out-reuses :
      (σ : System S) (before after : List (Task S)) (a : ℕ) (f : Context → S → Context × S)
      (k : Context → S → Job S) (w : Writer) (r : Request) (job : Job S)
      → σ.tasks ≡ before ++ (record { address = a; job = access f k; role = timed } ∷ after)
      → (σ' : System S) × (σ'' : System S) × Steps ops app σ σ'
        × Step ops app σ' σ''
        × (σ'.tasks
            ≡ record { address = a; job = job; role = serving }
              ∷ (before ++ (record { address = a; job = access f k; role = abandoned } ∷ after)))
        × (σ''.tasks
            ≡ record { address = a; job = job; role = serving }
              ∷ (before
                  ++ (record { address = a; job = k (σ'.contexts a) σ'.shared; role = abandoned }
                      ∷ after)))
        × (σ'.contexts a ≡ record { request = some r; writer = some w; params = []; keys = none })
        × (σ''.contexts a ≡ (f (σ'.contexts a) σ'.shared).0)
  unfolding contexts_after reset timed_out
  time_out-reuses σ before after a f k w r job e =
      let left : Task S = record { address = a; job = access f k; role = abandoned } in
      let write_status : Context → S → Context × S = λ c s. final ops app (status 503 c s) in
      let σ1 : System S = record σ {
        tasks =
            before
            ++ (record { address = a; job = timed_out ops app; role = serving } ∷ (left ∷ after));
      } in
      let σ2 : System S = record σ1 {
        contexts = contexts_after a write_status σ1;
        shared = shared_after a write_status σ1;
        tasks =
            before
            ++ (record { address = a; job = done deadline_exceeded; role = serving }
                ∷ (left ∷ after));
      } in
      let σ3 : System S = record σ2 {
        contexts = contexts_after a (conclude ops app (pure deadline_exceeded)) σ2;
        shared = shared_after a (conclude ops app (pure deadline_exceeded)) σ2;
        tasks =
            before
            ++ (record { address = a; job = done deadline_exceeded; role = closing }
                ∷ (left ∷ after));
      } in
      let σ4 : System S = record σ3 { pool = a ∷ σ.pool; tasks = before ++ (left ∷ after) } in
      let σ5 : System S = record σ4 {
        contexts = contexts_after a (λ c s. (reset w r c, s)) σ4;
        shared = shared_after a (λ c s. (reset w r c, s)) σ4;
        pool = σ.pool;
        tasks = record { address = a; job = job; role = serving } ∷ (before ++ (left ∷ after));
      } in
      let σ6 : System S = record σ5 {
        contexts = contexts_after a f σ5;
        shared = shared_after a f σ5;
        tasks =
            record { address = a; job = job; role = serving }
            ∷ (before
                ++ (record { address = a; job = k (σ5.contexts a) σ5.shared; role = abandoned }
                    ∷ after));
      } in
      (
        σ5,
        σ6,
        go σ σ1 σ5 (time_out before after a (access f k) σ e) (
            go σ1 σ2 σ5
              (run before (left ∷ after) a write_status (λ c s. done deadline_exceeded) serving σ1
                refl)
              (go σ2 σ3 σ5
                (answer before (left ∷ after) a deadline_exceeded serving σ2 refl (inl refl))
                (go σ3 σ4 σ5 (put_back before (left ∷ after) a deadline_exceeded σ3 refl)
                  (go σ4 σ5 σ5 (take [] σ.pool a w r job serving σ4 refl (inl refl)) (stay σ5))))),
        run (record { address = a; job = job; role = serving } ∷ before) after a f k abandoned σ5
            refl,
        refl,
        refl,
        put_at-same a _ σ4.contexts,
        put_at-same a _ σ5.contexts,
      )
