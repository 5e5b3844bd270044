-- ===== src/Sessions/Lifetime.antt =====
-- How long a session lives.
use amaro.Prelude.{◌≡◌, ℕ, true, false, Str, str_eq_self, if◌then◌else◌, arith}
use amaro.Cache.{is_past, expiration_of}
use amaro.Cache.Interface.{CacheStore}
use amaro.Sessions.{
  Session, Manager, SessionData, new_session, get_session, save_session, delete_session,
}

module _ {T V C G : Type 0} (types : SessionData T V) (cache : CacheStore V C)
    (random_id : G → Str × G) (m : Manager) where
  -- A session that was saved is what Get returns for its id, with its data and no longer new, until
  -- its expiration, by the manager's ttl, is past (never if that is 0); after that, Get returns a new session, with a
  -- random id and the zero value as its data.
  pub get_session-save_session :
      (now later : ℕ) (session : Session T) (c : C) (g : G)
      → (get_session types cache random_id m later session.id
          (save_session types cache random_id m now session (c, g))).0
        ≡ (if is_past later (expiration_of now m.ttl)
            then record { id = (random_id g).0; data_of = types.zero_value; is_new = true }
            else record { id = session.id; data_of = session.data_of; is_new = false })
  unfolding get_session save_session new_session
  get_session-save_session now later session c g =
      let c' = cache.set now session.id (types.to_value session.data_of) m.ttl c in
      ground (
        arith,
        cache.get_value_at later session.id c',
        cache.value_at_set now later session.id session.id (types.to_value session.data_of) m.ttl c,
        str_eq_self session.id,
        types.of_to session.data_of,
      )

  -- After a session is deleted, Get returns a new one for its id.
  pub get_session-delete_session :
      (later : ℕ) (id : Str) (c : C) (g : G)
      → (get_session types cache random_id m later id
          (delete_session types cache random_id m id (c, g))).0
        ≡ record { id = (random_id g).0; data_of = types.zero_value; is_new = true }
  unfolding get_session delete_session new_session
  get_session-delete_session later id c g = ground (
    arith,
    cache.get_value_at later id (cache.delete id c),
    cache.value_at_delete later id id c,
    str_eq_self id,
  )
