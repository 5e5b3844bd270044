-- ===== src/Sessions/Maps/Shared.antt =====
-- Sessions whose data is a map: what one request sets, another sees.
use amaro.Prelude.{
  ℕ, ◌≡◌, refl, ap, ◌∙◌, ◌&&◌, Bool, true, false, [], none, some, Str, str_eq, ◌==◌, if◌then◌else◌,
  arith,
}
use amaro.Prelude.Assoc.{load, store, load-store}
use amaro.Errors.{Any}
use amaro.Cache.{is_past, expiration_of}
use amaro.Cache.Interface.{CacheStore}
use amaro.Sessions.{Session, Manager, SessionData, get_session, save_session}
use amaro.Sessions.Lifetime.{get_session-save_session}
use amaro.Sessions.Maps.{
  Data, map_data, nil_interface, other_data, Maps, get_value, set_value, make_with, assign,
}

-- Whether Set can store a value.
abbrev pub takes_map : Data → Bool
takes_map (map_data _) = true
takes_map (nil_interface fits) = fits
takes_map (other_data _) = false

if-same : {A : Type 0} (a : ℕ) (x y : A) → (if a == a then x else y) ≡ x
if-same a x y = ground arith

load-make_with :
    (key k : Str) (value : Any) (maps : Maps)
    → load k ((make_with key value maps).at maps.fresh)
      ≡ (if str_eq key k then some value else none)
unfolding load make_with
load-make_with key k value maps =
    ap (load k) (if-same maps.fresh (store key value []) (maps.at maps.fresh))
    ∙ load-store key k value []

load-assign :
    (key k : Str) (value : Any) (maps : Maps) (a : ℕ)
    → load k ((assign a key value maps).at a)
      ≡ (if str_eq key k then some value else load k (maps.at a))
unfolding assign
load-assign key k value maps a =
    ap (load k) (if-same a (store key value (maps.at a)) (maps.at a))
    ∙ load-store key k value (maps.at a)

-- Get after Set, on the session that was set: the key has the value, and the other keys what they
-- had; nothing changes if the data can be no map.
pub get_value-set_value :
    (key k : Str) (value : Any) (session : Session Data) (maps : Maps)
    → get_value k (set_value key value session maps).0 (set_value key value session maps).1
      ≡ (if takes_map session.data_of && str_eq key k then some value else get_value k session maps)
unfolding get_value set_value load
get_value-set_value key k value session maps = by_data session.data_of
  where
    by_data :
        (d : Data)
        → get_value k
            (set_value key value (record session { data_of = d }) maps).0
            (set_value key value (record session { data_of = d }) maps).1
          ≡ (if takes_map d && str_eq key k
              then some value
              else get_value k (record session { data_of = d }) maps)
    by_data (map_data none) = load-make_with key k value maps
    by_data (map_data (some a)) = load-assign key k value maps a
    by_data (nil_interface true) = load-make_with key k value maps
    by_data (nil_interface false) = refl
    by_data (other_data n) = refl

module _ {V C G : Type 0} (types : SessionData Data V) (cache : CacheStore V C)
    (random_id : G → Str × G) (m : Manager) where
  -- Two requests have a session that was saved, whose data is a map, before its time is over. What one
  -- of them sets is what the other gets, although nothing is saved.
  pub set_value-shared :
      (now first second : ℕ) (key k : Str) (value : Any) (session : Session Data) (a : ℕ)
      (maps : Maps) (c : C) (g : G)
      → session.data_of ≡ map_data (some a)
      → is_past first (expiration_of now m.ttl) ≡ false
      → is_past second (expiration_of now m.ttl) ≡ false
      → let saved = save_session types cache random_id m now session (c, g) in
        let one = (get_session types cache random_id m first session.id saved).0 in
        let two = (get_session types cache random_id m second session.id saved).0 in
        get_value k two (set_value key value one maps).1
        ≡ (if str_eq key k then some value else get_value k two maps)
  unfolding get_value set_value
  set_value-shared now first second key k value session a maps c g h e1 e2 =
      let live : Session Data = record {
        id = session.id;
        data_of = map_data (some a);
        is_new = false;
      } in
      let got : (later : ℕ)
          → is_past later (expiration_of now m.ttl) ≡ false
          → (get_session types cache random_id m later session.id
              (save_session types cache random_id m now session (c, g))).0
            ≡ live =
        λ later e.
          get_session-save_session types cache random_id m now later session c g ∙ rw (e, h) refl in
      rw (got first e1, got second e2) (load-assign key k value maps a)
