-- ===== src/Sessions/Requests.antt =====
-- addons/sessions/middleware.go, with the Manager as its Provider. A session that a request has
-- loaded is at an address, and the context's key holds the address, since handlers change the session
-- through a pointer. The time is read off the memory. What http.SetCookie writes is the parameter
-- `cookie_text`: of the name, the value and the expiry of a cookie with the path "/" and HttpOnly.
pub mod Remembered
use amaro.Prelude.{
  ℕ, zero, suc, ◌+◌, Bool, true, false, not, List, [], ◌∷◌, ◌++◌, Option, none, some, Str, codes,
  is_empty, length, get_elem?, if◌then◌else◌,
}
use amaro.Errors.{Any, string, other, Error}
use amaro.Http.{on_header, header_add}
use amaro.Context.{
  Context, Outcome, returned, panicked, Act, Handler, Middleware, ◌>>=◌, ◌>>◌, pure, when,
  on_writer, get_cookie, set_key, get_key,
}
use amaro.Cache.Interface.{CacheStore}
use amaro.Sessions.{Session, Manager, SessionData, get_session, save_session}

abbrev pub context_key : Str
context_key = codes "session"

-- The cache, what ids are drawn from, the sessions by their addresses, and all other memory.
pub record SessionMemory (T C G W : Type 0) : Type 0 where
  pub cache : C
  pub source : G
  pub loaded : List (Session T)
  pub rest : W

-- The id in the request's cookie, or "".
unfoldable pub cookie_id : Manager → Context → Str
unfolding get_cookie
cookie_id m c = elim (get_cookie m.cookie_name c) [ none ↦ [] | some value ↦ value ]

module _ {T V C G W : Type 0} (types : SessionData T V) (cache : CacheStore V C)
    (random_id : G → Str × G) (m : Manager) (cookie_text : Str → Str → ℕ → Str) (now : W → ℕ) where
  -- The session of the id, and the memory with it at a new address.
  unfoldable pub load_session :
      Str → SessionMemory T C G W → Session T × (ℕ × SessionMemory T C G W)
  unfolding get_session
  load_session id s =
      let (session, (c, g)) =
        get_session types cache random_id m (now s.rest) id (s.cache, s.source) in
      (
        session,
        (length s.loaded, record s { cache = c; source = g; loaded = s.loaded ++ (session ∷ []) }),
      )

  set_cookie : Str → ℕ → Act (SessionMemory T C G W) (Unit {0})
  unfolding when on_writer on_header header_add
  set_cookie id expires =
      let cookie = cookie_text m.cookie_name id expires in
      when (not (is_empty cookie)) (on_writer (on_header (header_add (codes "Set-Cookie") cookie)))

  -- The call of Save on what the session is by then.
  unfoldable pub save_at : ℕ → SessionMemory T C G W → SessionMemory T C G W
  unfolding get_elem? save_session
  save_at p s = elim (get_elem? s.loaded p) [
    | none ↦ s
    | some session ↦ record s {
      cache = (save_session types cache random_id m (now s.rest) session (s.cache, s.source)).0;
    }
  ]

  abbrev save_loaded : ℕ → Act (SessionMemory T C G W) (Unit {0})
  save_loaded p c s = returned tt c (save_at p s)

  unfoldable pub start : Middleware (SessionMemory T C G W)
  unfolding load_session set_key set_cookie save_at
  start next c s =
      let (session, (p, s')) = load_session (cookie_id m c) s in
      (do
        set_key context_key (other p)
        set_cookie session.id (now s'.rest + m.ttl)
        err ← next
        save_loaded p
        pure err)
        c s'

-- sessions.Get: the address of the request's session, and the session.
unfoldable pub current_session :
    {T C G W : Type 0} → Context → SessionMemory T C G W → Option (ℕ × Session T)
unfolding get_key get_elem?
current_session c s = elim (get_key context_key c) [
  | some (other p) ↦ elim (get_elem? s.loaded p) [ none ↦ none | some session ↦ some (p, session) ]
  | _ ↦ none
]
