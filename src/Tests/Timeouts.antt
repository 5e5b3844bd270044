-- ===== src/Tests/Timeouts.antt =====
-- Requests of which one times out, and one that is served alone.
use amaro.Prelude.{ℕ, suc, ◌≡◌, ◌≢◌, ◌⊎◌, refl, inr, All, [], ◌∷◌, none, some, str_eq}
use amaro.Errors.{nil}
use amaro.Http.{new_writer}
use amaro.Context.{Context, Outcome, returned, panicked, status, reset, new_context}
use amaro.Routing.{compile}
use amaro.Trie.{new_trie_router, add}
use amaro.Trie.Search.{find, trie_router}
use amaro.App.{new_app, dispatch, serve_http}
use amaro.App.Serving.{chain_of}
use amaro.Middlewares.Timeout.{
  Job, done, access, Role, serving, timed, abandoned, Task, System, Step, Steps, make, run,
  time_out, contexts_after, shared_after, timed_out, final, deadline_exceeded,
}
use amaro.Middlewares.Timeout.Owners.{count, IsReachable, start, next, shared-abandoned}
use amaro.Middlewares.Timeout.Reuse.{time_out-reuses}
use amaro.Middlewares.Timeout.Alone.{act_of, alone-serve_http}
use amaro.Tests.{idle}
use amaro.Tests.Serving.{site, asks_file}

-- A handler that counts, and then counts again.
abbrev counting : Job ℕ
counting = access (λ c s. (c, suc s)) (λ c s. access (λ c s. (c, suc s)) (λ c s. done nil))

abbrev task : Role → Task ℕ
task role = record { address = 0; job = counting; role = role }

abbrev at_start : System ℕ
at_start = record { contexts = λ a. idle; shared = 5; pool = []; fresh = 0; tasks = [] }

abbrev one_request : System ℕ
one_request = record at_start {
  contexts =
      contexts_after 0 (λ _ s. (reset new_writer asks_file (new_context none none []), s)) at_start;
  shared =
      shared_after 0 (λ _ s. (reset new_writer asks_file (new_context none none []), s)) at_start;
  fresh = 1;
  tasks = task timed ∷ [];
}

-- The deadline passes, the status 503 is written, and the error handler answers.
abbrev after_deadline : System ℕ
after_deadline = record one_request {
  tasks =
      record { address = 0; job = timed_out trie_router site; role = serving }
      ∷ (task abandoned ∷ []);
}

abbrev write_status : Context → ℕ → Context × ℕ
write_status c s = final trie_router site (status 503 c s)

abbrev after_status : System ℕ
after_status = record after_deadline {
  contexts = contexts_after 0 write_status after_deadline;
  shared = shared_after 0 write_status after_deadline;
  tasks =
      record { address = 0; job = done deadline_exceeded; role = serving } ∷ (task abandoned ∷ []);
}

after_status-IsReachable : IsReachable trie_router site after_status
unfolding timed_out
after_status-IsReachable =
    next after_deadline after_status
      (next one_request after_deadline
        (next at_start one_request (start (λ a. idle) 5)
          (make new_writer asks_file counting timed at_start (inr refl)))
        (time_out [] [] 0 counting one_request refl))
      (run [] (task abandoned ∷ []) 0 write_status (λ c s. done deadline_exceeded) serving
        after_deadline refl)

shared-abandoned_example :
    (count 0 after_status.pool ≡ 0)
    × All (λ (u : Task ℕ). (u.address ≢ 0) ⊎ (u.role ≡ abandoned)) (task abandoned ∷ [])
shared-abandoned_example =
    shared-abandoned trie_router site after_status [] (task abandoned ∷ [])
      (record { address = 0; job = done deadline_exceeded; role = serving })
      after_status-IsReachable refl (λ e. cc e)

time_out-reuses_example :
    (σ' : System ℕ) × (σ'' : System ℕ) × Steps trie_router site one_request σ'
    × Step trie_router site σ' σ''
    × (σ'.tasks ≡ task serving ∷ (task abandoned ∷ []))
    × (σ''.tasks
        ≡ task serving
          ∷ (record {
            address = 0;
            job = access (λ c s. (c, suc s)) (λ c s. done nil);
            role = abandoned;
          }
              ∷ []))
    × (σ'.contexts 0
        ≡ record { request = some asks_file; writer = some new_writer; params = []; keys = none })
    × (σ''.contexts 0 ≡ σ'.contexts 0)
time_out-reuses_example =
    time_out-reuses trie_router site one_request [] [] 0 (λ c s. (c, suc s))
      (λ c s. access (λ c s. (c, suc s)) (λ c s. done nil)) new_writer asks_file counting refl

abbrev kept : {A : Type 0} → Outcome ℕ A → Context × ℕ
kept (returned _ c s) = (c, s)
kept (panicked _ c s) = (c, s)

-- The site's own chain, in one access.
abbrev at_once : Job ℕ
at_once =
    access (λ c s. kept (chain_of trie_router site (dispatch trie_router site) c s))
      (λ c s. done nil)

abbrev waiting : System ℕ
waiting = record at_start { pool = 0 ∷ []; fresh = 1 }

alone-serve_http_example :
    (σ' : System ℕ) × Steps trie_router site waiting σ'
    × (σ'.tasks ≡ [])
    × (σ'.pool ≡ 0 ∷ [])
    × ((σ'.contexts 0, σ'.shared)
        ≡ final trie_router site (serve_http trie_router new_writer asks_file site 5).0)
unfolding act_of dispatch compile find add new_trie_router new_app str_eq
alone-serve_http_example =
    alone-serve_http trie_router site new_writer asks_file at_once 0 [] timed waiting refl refl
      (inr refl) refl
