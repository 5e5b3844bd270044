-- ===== src/Middlewares/Limiter.antt =====
-- middlewares/limiter.go. Floating-point numbers are the parameter `floats`, and time.Now is `clock`,
-- in nanoseconds, which does not run backwards. The memory is the map `clients` and what the clock and
-- the other closures have. A pointer to a client is the client: only the map holds it. Not modelled:
-- the mutexes, and the goroutine that calls the clean-up every minute.
pub mod Isolation
use amaro.Prelude.{
  ℕ, ◌-◌, ◌*◌, Bool, true, false, ltb, [], ◌∷◌, Option, none, some, Str, codes, if◌then◌else◌,
}
use amaro.Prelude.Assoc.{Assoc, load, store}
use amaro.Errors.{Error}
use amaro.Context.{Context, Act, Handler, Middleware, ◌>>=◌, the_request, write_string}

pub record Floats (F : Type 0) : Type 0 where
  pub of_int : ℕ → F
  -- Duration.Seconds
  pub seconds : ℕ → F
  pub add : F → F → F
  pub sub : F → F → F
  pub mul : F → F → F
  pub at_most : F → F → Bool
  pub less : F → F → Bool

pub record RateLimiter (F : Type 0) : Type 0 where
  pub rate : F
  pub burst : ℕ
  pub tokens : F
  pub last_check : ℕ

pub record Client (F : Type 0) : Type 0 where
  pub limiter : RateLimiter F
  pub last_seen : ℕ

module _ {F : Type 0} (floats : Floats F) where
  -- (l *rateLimiter).Allow
  unfoldable pub take_token : ℕ → RateLimiter F → Bool × RateLimiter F
  take_token now l =
      let elapsed = floats.seconds (now - l.last_check) in
      let refilled = floats.add l.tokens (floats.mul elapsed l.rate) in
      let full = floats.of_int l.burst in
      let tokens = if floats.less full refilled then full else refilled in
      let one = floats.of_int 1 in
      if floats.at_most one tokens
      then (true, record l { tokens = floats.sub tokens one; last_check = now })
      else (false, record l { tokens = tokens; last_check = now })

  module _ {G : Type 0} (clock : G → ℕ × G) (requests_per_second : F) (burst : ℕ) where
    new_limiter : ℕ → RateLimiter F
    new_limiter now = record {
      rate = requests_per_second;
      burst = burst;
      tokens = floats.of_int burst;
      last_check = now;
    }

    -- The clean-up: clients that have not been seen for three minutes are dropped.
    unfoldable pub drop_idle : Assoc (Client F) → G → Assoc (Client F) × G
    drop_idle [] g = ([], g)
    drop_idle ((ip, cli) ∷ clients) g =
        let (now, g1) = clock g in
        let (rest, g2) = drop_idle clients g1 in
        if ltb (3 * 60 * 1000000000) (now - cli.last_seen)
        then (rest, g2)
        else ((ip, cli) ∷ rest, g2)

    -- The client of an address, made if there is none, as it is after this visit.
    visit : Option (Client F) → G → Client F × G
    unfolding new_limiter
    visit none g =
        let (now, g1) = clock g in
        let (seen, g2) = clock g1 in (record { limiter = new_limiter now; last_seen = seen }, g2)
    visit (some cli) g = let (seen, g1) = clock g in (record cli { last_seen = seen }, g1)

    -- The client after the call of Allow, and its answer.
    abbrev decide : Client F × G → Bool × (Client F × G)
    unfolding take_token
    decide (cli, g) =
        let (now, g') = clock g in
        let (allowed, l) = take_token now cli.limiter in (allowed, (record cli { limiter = l }, g'))

    -- What a request from an address does to the memory, and whether it goes on.
    unfoldable pub attempt : Str → Assoc (Client F) × G → Bool × (Assoc (Client F) × G)
    unfolding load store visit decide
    attempt ip (clients, g) =
        let (allowed, (cli, g')) = decide (visit (load ip clients) g) in
        (allowed, (store ip cli clients, g'))

    unfoldable pub rate_limiter : Middleware (Assoc (Client F) × G)
    unfolding the_request attempt write_string
    rate_limiter next = do
      r ← the_request
      λ c s.
          let (allowed, s') = attempt r.remote_addr s in
          if allowed then next c s' else write_string 429 (codes "Too Many Requests") c s'
