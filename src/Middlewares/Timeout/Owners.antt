-- ===== src/Middlewares/Timeout/Owners.antt =====
-- Who holds a context: the pool, or a request that is being served.
use amaro.Prelude.{
  ℕ, ◌+◌, ◌≤◌, ◌<◌, ◌≡◌, ◌≢◌, ◌⊎◌, Bool-cases, refl, inl, inr, List, [], ◌∷◌, ◌++◌, ◌==◌, All,
  if◌then◌else◌, arith, ap, ◌∙◌,
}
use amaro.Context.{Context}
use amaro.Routing.{Router}
use amaro.App.{App}
use amaro.Middlewares.Timeout.{
  done, access, Role, serving, timed, closing, abandoned, Task, System, Step, take, make, drop, run,
  answer, put_back, time_out, timed_out, vanish,
}

unfoldable pub count : ℕ → List ℕ → ℕ
count a [] = 0
count a (b ∷ bs) = (if b == a then 1 else 0) + count a bs

-- The tasks at the address, each counted by its role.
unfoldable pub holders : {S : Type 0} → (Role → ℕ) → ℕ → List (Task S) → ℕ
holders weight a [] = 0
holders weight a (t ∷ ts) = (if t.address == a then weight t.role else 0) + holders weight a ts

abbrev pub live : Role → ℕ
live serving = 1
live timed = 1
live closing = 1
live abandoned = 0

abbrev pub left_behind : Role → ℕ
left_behind abandoned = 1
left_behind _ = 0

pub count-append : (a : ℕ) (xs ys : List ℕ) → count a (xs ++ ys) ≡ count a xs + count a ys
unfolding count
count-append a [] ys = omega arith
count-append a (x ∷ xs) ys = omega (arith, count-append a xs ys)

pub holders-append :
    {S : Type 0} (weight : Role → ℕ) (a : ℕ) (xs ys : List (Task S))
    → holders weight a (xs ++ ys) ≡ holders weight a xs + holders weight a ys
unfolding holders
holders-append weight a [] ys = omega arith
holders-append weight a (x ∷ xs) ys = omega (arith, holders-append weight a xs ys)

-- How many times the context at the address is in the pool or is used by a request being served.
abbrev pub owners : {S : Type 0} → ℕ → System S → ℕ
owners a σ = count a σ.pool + holders live a σ.tasks

-- At most one holds the context, and nobody does if it is not made yet.
abbrev pub IsOwned : {S : Type 0} → System S → ℕ → Type 0
IsOwned σ a =
    (owners a σ ≤ 1) × ((a < σ.fresh) ⊎ ((owners a σ ≡ 0) × (holders left_behind a σ.tasks ≡ 0)))

live-used : (role : Role) → role ≢ abandoned → live role ≡ 1
live-used serving h = refl
live-used timed h = refl
live-used closing h = refl
live-used abandoned h = absurd (h refl)

idle-abandoned : (role : Role) → live role ≡ 0 → role ≡ abandoned
idle-abandoned abandoned h = refl
idle-abandoned serving h = absurd (omega (arith, h))
idle-abandoned timed h = absurd (omega (arith, h))
idle-abandoned closing h = absurd (omega (arith, h))

-- Where nobody is counted, the tasks at the address are left behind.
unused :
    {S : Type 0} (a : ℕ) (ts : List (Task S))
    → holders live a ts ≡ 0
    → All (λ (u : Task S). (u.address ≢ a) ⊎ (u.role ≡ abandoned)) ts
unfolding holders
unused a [] h = tt
unused a (t ∷ ts) h = (
  elim (Bool-cases (t.address == a)) [
    | inl same ↦ inr (idle-abandoned t.role (ground (arith, same, h)))
    | inr other ↦ inl (λ e. ground (arith, other, e))
  ],
  unused a ts (ground (arith, h)),
)

live_one :
    (role : Role) → (role ≡ serving) ⊎ (role ≡ timed) → (live role ≡ 1) × (left_behind role ≡ 0)
live_one role (inl e) = rw e (refl, refl)
live_one role (inr e) = rw e (refl, refl)

module _ {S R : Type 0} (ops : Router S R) (app : App S R) where
  step-IsOwned : (σ σ' : System S) (a : ℕ) → Step ops app σ σ' → IsOwned σ a → IsOwned σ' a
  unfolding count holders
  step-IsOwned σ σ' a (take before after b w r job role τ e l) h = ground (
    arith,
    ap (count a) e,
    count-append a before (b ∷ after),
    count-append a before after,
    live_one role l,
  )
  step-IsOwned σ σ' a (make w r job role τ l) h = ground (arith, live_one role l)
  step-IsOwned σ σ' a (drop before after b τ e) h =
      ground (arith, ap (count a) e, count-append a before (b ∷ after), count-append a before after)
  step-IsOwned σ σ' a (run before after b f k role τ e) h = ground (
    arith,
    ap (holders live a) e,
    ap (holders left_behind a) e,
    holders-append live a before (record { address = b; job = access f k; role = role } ∷ after),
    holders-append live a before
        (record { address = b; job = k (τ.contexts b) τ.shared; role = role } ∷ after),
    holders-append left_behind a before
        (record { address = b; job = access f k; role = role } ∷ after),
    holders-append left_behind a before
        (record { address = b; job = k (τ.contexts b) τ.shared; role = role } ∷ after),
  )
  step-IsOwned σ σ' a (answer before after b err role τ e l) h = ground (
    arith,
    ap (holders live a) e,
    ap (holders left_behind a) e,
    holders-append live a before (record { address = b; job = done err; role = role } ∷ after),
    holders-append live a before (record { address = b; job = done err; role = closing } ∷ after),
    holders-append left_behind a before
        (record { address = b; job = done err; role = role } ∷ after),
    holders-append left_behind a before
        (record { address = b; job = done err; role = closing } ∷ after),
    live_one role l,
  )
  step-IsOwned σ σ' a (put_back before after b err τ e) h = ground (
    arith,
    ap (holders live a) e,
    ap (holders left_behind a) e,
    holders-append live a before (record { address = b; job = done err; role = closing } ∷ after),
    holders-append live a before (after),
    holders-append left_behind a before
        (record { address = b; job = done err; role = closing } ∷ after),
    holders-append left_behind a before (after),
  )
  step-IsOwned σ σ' a (time_out before after b job τ e) h = ground (
    arith,
    ap (holders live a) e,
    ap (holders left_behind a) e,
    holders-append live a before (record { address = b; job = job; role = timed } ∷ after),
    holders-append live a before (
        record { address = b; job = timed_out ops app; role = serving }
        ∷ (record { address = b; job = job; role = abandoned } ∷ after)),
    holders-append left_behind a before (record { address = b; job = job; role = timed } ∷ after),
    holders-append left_behind a before (
        record { address = b; job = timed_out ops app; role = serving }
        ∷ (record { address = b; job = job; role = abandoned } ∷ after)),
  )
  step-IsOwned σ σ' a (vanish before after b err τ e) h = ground (
    arith,
    ap (holders live a) e,
    ap (holders left_behind a) e,
    holders-append live a before (record { address = b; job = done err; role = abandoned } ∷ after),
    holders-append live a before (after),
    holders-append left_behind a before
        (record { address = b; job = done err; role = abandoned } ∷ after),
    holders-append left_behind a before (after),
  )

  -- What goroutines come to, from an App that has made no context yet.
  pub data IsReachable : System S → Type 0 where
    start :
        (contexts : ℕ → Context) (s : S)
        → IsReachable (record { contexts = contexts; shared = s; pool = []; fresh = 0; tasks = [] })
    next : (σ σ' : System S) → IsReachable σ → Step ops app σ σ' → IsReachable σ'

  IsReachable-IsOwned : (σ : System S) (a : ℕ) → IsReachable σ → IsOwned σ a
  unfolding count holders
  IsReachable-IsOwned σ a (start contexts s) = (omega arith, inr (refl, refl))
  IsReachable-IsOwned σ a (next τ _ h step) = step-IsOwned τ σ a step (IsReachable-IsOwned τ a h)

  -- Whatever requests are served at the same time and whichever of them time out, where a request that
  -- waits in the select counts as one with its handler's goroutine: if a goroutine is not a handler's
  -- that Timeout has left behind, then the context that it runs on is not in the pool, and any other
  -- goroutine that runs on it is a handler's that Timeout has left behind.
  pub shared-abandoned :
      (σ : System S) (before after : List (Task S)) (t : Task S)
      → IsReachable σ
      → σ.tasks ≡ before ++ (t ∷ after)
      → t.role ≢ abandoned
      → (count t.address σ.pool ≡ 0)
        × All (λ (u : Task S). (u.address ≢ t.address) ⊎ (u.role ≡ abandoned)) (before ++ after)
  unfolding holders
  shared-abandoned σ before after t h e used =
      let owned = IsReachable-IsOwned σ t.address h in
      let split =
        ap (holders live t.address) e ∙ holders-append live t.address before (t ∷ after) in
      let rest = holders-append live t.address before after in
      let one = live-used t.role used in
      (
        ground (arith, owned, split, one),
        unused t.address (before ++ after) (ground (arith, owned, split, rest, one)),
      )
