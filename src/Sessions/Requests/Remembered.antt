-- ===== src/Sessions/Requests/Remembered.antt =====
-- What a session holds in the next request.
use amaro.Prelude.{
  ℕ, ◌≡◌, ap, ◌∙◌, ◌+◌, false, not, some, Str, codes, is_empty, length, get_elem?, get_elem?-end,
  if◌then◌else◌, arith,
}
use amaro.Errors.{other, Error}
use amaro.Http.{Writer, on_header, header_add}
use amaro.Context.{Context, Outcome, returned, panicked, Handler, get_key, pure, ◌>>=◌, ◌>>◌}
use amaro.Context.Steps.{when_writer-bind}
use amaro.Context.Keys.{keyed, get_key-keyed, keyed-run}
use amaro.Cache.{is_past, expiration_of}
use amaro.Cache.Interface.{CacheStore}
use amaro.Sessions.{Session, Manager, SessionData, get_session, save_session}
use amaro.Sessions.Lifetime.{get_session-save_session}
use amaro.Sessions.Requests.{
  context_key, SessionMemory, cookie_id, load_session, set_cookie, save_at, save_loaded, start,
  current_session,
}

module _ {T V C G W : Type 0} (types : SessionData T V) (cache : CacheStore V C)
    (random_id : G → Str × G) (m : Manager) (cookie_text : Str → Str → ℕ → Str) (now : W → ℕ) where
  abbrev loaded_by : Context → SessionMemory T C G W → Session T × (ℕ × SessionMemory T C G W)
  loaded_by c s = load_session types cache random_id m cookie_text now (cookie_id m c) s

  -- What the handler under Start is called with, on a context with the writer w.
  abbrev pub entered : Writer → Context → SessionMemory T C G W → Context
  entered w c s =
      let cookie = cookie_text m.cookie_name (loaded_by c s).0.id (now s.rest + m.ttl) in
      record (keyed context_key (other (length s.loaded)) c) {
        writer = some (
            if not (is_empty cookie)
            then on_header (header_add (codes "Set-Cookie") cookie) w
            else w);
      }

  abbrev pub entered_memory : Context → SessionMemory T C G W → SessionMemory T C G W
  entered_memory c s = (loaded_by c s).1.1

  abbrev then_save :
      ℕ → Outcome (SessionMemory T C G W) Error → Outcome (SessionMemory T C G W) Error
  then_save p o = elim o [
    | returned err c s ↦ returned err c (save_at types cache random_id m cookie_text now p s)
    | panicked v c s ↦ panicked v c s
  ]

  start-run :
      (next : Context → SessionMemory T C G W → Outcome (SessionMemory T C G W) Error) (c : Context)
      (s : SessionMemory T C G W) {w : Writer} {e : Error} {c' : Context}
      {s' : SessionMemory T C G W}
      → c.writer ≡ some w
      → next (entered w c s) (entered_memory c s) ≡ returned e c' s'
      → start types cache random_id m cookie_text now next c s
        ≡ returned e c' (save_at types cache random_id m cookie_text now (length s.loaded) s')
  unfolding start set_cookie load_session
  start-run next c s has_writer handled =
      let s1 = entered_memory c s in
      let p = length s.loaded in
      let cookie = cookie_text m.cookie_name (loaded_by c s).0.id (now s.rest + m.ttl) in
      let rest =
        next >>= λ err. save_loaded types cache random_id m cookie_text now p >> pure err in
      keyed-run _ _ _ c s1
      ∙ when_writer-bind (keyed context_key (other p) c) s1 (not (is_empty cookie))
          (on_header (header_add (codes "Set-Cookie") cookie)) (λ _. rest) has_writer
      ∙ ap (then_save p) handled

  current_session-entered :
      (w : Writer) (c : Context) (s : SessionMemory T C G W)
      → current_session (entered w c s) (entered_memory c s)
        ≡ some (length s.loaded, (loaded_by c s).0)
  unfolding current_session load_session get_key
  current_session-entered w c s = ground (
    arith,
    get_key-keyed context_key (other (length s.loaded)) c,
    get_elem?-end s.loaded (loaded_by c s).0,
  )

  get_session-save_at :
      (p : ℕ) (s s' : SessionMemory T C G W) {session : Session T}
      → get_elem? s.loaded p ≡ some session
      → s'.cache ≡ (save_at types cache random_id m cookie_text now p s).cache
      → is_past (now s'.rest) (expiration_of (now s.rest) m.ttl) ≡ false
      → (get_session types cache random_id m (now s'.rest) session.id (s'.cache, s'.source)).0
        ≡ record { id = session.id; data_of = session.data_of; is_new = false }
  unfolding save_at save_session
  get_session-save_at p s s' {session} at kept alive = ground (
    arith,
    at,
    kept,
    alive,
    get_session-save_session types cache random_id m (now s.rest) (now s'.rest) session s.cache
        s'.source,
  )

  -- Under Start, on a context with a writer, a handler that returns is called once, and its error is
  -- what Start returns, with its session saved in the cache as it left it. A later request, with the
  -- session's id in its cookie and the cache as it was left, before it expires: the session that
  -- its handler gets has the saved data, under the same id, and is not new.
  pub start-remembers :
      (next : Handler (SessionMemory T C G W)) (c later : Context)
      (s s_later : SessionMemory T C G W) {w : Writer} {e : Error} {c' : Context}
      {s' : SessionMemory T C G W} {session : Session T}
      → c.writer ≡ some w
      → next (entered w c s) (entered_memory c s) ≡ returned e c' s'
      → get_elem? s'.loaded (length s.loaded) ≡ some session
      → cookie_id m later ≡ session.id
      → s_later.cache ≡ (save_at types cache random_id m cookie_text now (length s.loaded) s').cache
      → is_past (now s_later.rest) (expiration_of (now s'.rest) m.ttl) ≡ false
      → (w_later : Writer)
      → (start types cache random_id m cookie_text now next c s
          ≡ returned e c' (save_at types cache random_id m cookie_text now (length s.loaded) s'))
        × (current_session (entered w_later later s_later) (entered_memory later s_later)
            ≡ some (
              length s_later.loaded,
              record { id = session.id; data_of = session.data_of; is_new = false },
            ))
  unfolding load_session
  start-remembers next c later s s_later {session = session} has_writer handled at same_id kept
        alive w_later =
      let id_of =
        ap
          (λ id. (
            length s_later.loaded,
            (load_session types cache random_id m cookie_text now id s_later).0,
          ))
          same_id in
      let again =
        ap (λ x. (length s_later.loaded, x))
          (get_session-save_at (length s.loaded) _ s_later at kept alive) in
      (
        start-run next c s has_writer handled,
        current_session-entered w_later later s_later ∙ ap some (id_of ∙ again),
      )
