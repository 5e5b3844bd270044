-- ===== src/Sessions.antt =====
-- addons/sessions/sessions.go: the Manager, over any cache. Parameters: the values that the cache
-- holds, with the conversion of session data to one and the type assertion back, and the random
-- session ids. The memory `C × G` is the cache and what the ids are drawn from. Save never fails.
-- Get and Set of a Session are in Sessions/Maps.
pub mod Lifetime
pub mod Requests
pub mod Maps
use amaro.Prelude.{◌≡◌, ℕ, Bool, true, false, Option, none, some, Str}
use amaro.Cache.Interface.{CacheStore}

-- The field `store` is the manager that made the session.
pub record Session (T : Type 0) : Type 0 where
  pub id : Str
  pub data_of : T
  pub is_new : Bool

pub record Manager : Type 0 where
  pub cookie_name : Str
  pub ttl : ℕ

abbrev pub cookie_config : Manager → Str × ℕ
cookie_config m = (m.cookie_name, m.ttl)

-- A session's data type, which is not itself an interface type: its zero value, its way to
-- `interface{}`, and the type assertion back.
pub record SessionData (T V : Type 0) : Type 0 where
  pub zero_value : T
  pub to_value : T → V
  pub of_value : V → Option T
  pub of_to : (x : T) → of_value (to_value x) ≡ some x

module _ {T V C G : Type 0} (types : SessionData T V) (cache : CacheStore V C)
    (random_id : G → Str × G) (m : Manager) where
  unfoldable pub new_session : C × G → Session T × (C × G)
  new_session (c, g) =
      let (id, g') = random_id g in
      (record { id = id; data_of = types.zero_value; is_new = true }, (c, g'))

  -- A missing session, and one of another type, is replaced by a new one.
  unfoldable pub get_session : ℕ → Str → C × G → Session T × (C × G)
  unfolding new_session
  get_session now id (c, g) =
      let (value, c') = cache.get now id c in
      elim value [
        | none ↦ new_session (c', g)
        | some v ↦ elim (types.of_value v) [
          | none ↦ new_session (c', g)
          | some x ↦ (record { id = id; data_of = x; is_new = false }, (c', g))
        ]
      ]

  unfoldable pub save_session : ℕ → Session T → C × G → C × G
  save_session now session (c, g) =
      (cache.set now session.id (types.to_value session.data_of) m.ttl c, g)

  unfoldable pub delete_session : Str → C × G → C × G
  delete_session id (c, g) = (cache.delete id c, g)
