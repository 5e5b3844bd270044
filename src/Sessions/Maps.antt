-- ===== src/Sessions/Maps.antt =====
-- Get, Set and Save of a Session, and New, of addons/sessions/sessions.go. A map is a reference: it is
-- at an address, and the cache holds the address.
pub mod Shared
use amaro.Prelude.{ℕ, suc, Bool, true, false, [], Option, none, some, Str, ◌==◌, if◌then◌else◌}
use amaro.Prelude.Assoc.{Assoc, load, store}
use amaro.Errors.{Any, Error, nil}
use amaro.Cache.Interface.{CacheStore}
use amaro.Sessions.{Session, Manager, SessionData, save_session}

-- What `any(s.Data)` is: a map[string]interface{}, which may be nil; the nil of an interface type, and
-- whether a map fits into that; or something else, told apart by a number.
pub data Data : Type 0 where
  map_data : Option ℕ → Data
  nil_interface : Bool → Data
  other_data : ℕ → Data

-- The maps that there are.
pub record Maps : Type 0 where
  pub at : ℕ → Assoc Any
  pub fresh : ℕ

-- make, and m[key] = value on a map that is not nil
abbrev pub make_with : Str → Any → Maps → Maps
unfolding store
make_with key value maps = record maps {
  at = λ a. if maps.fresh == a then store key value [] else maps.at a;
  fresh = suc maps.fresh;
}

abbrev pub assign : ℕ → Str → Any → Maps → Maps
unfolding store
assign address key value maps = record maps {
  at = λ a. if address == a then store key value (maps.at address) else maps.at a;
}

unfoldable pub get_value : Str → Session Data → Maps → Option Any
unfolding load
get_value key session maps = elim session.data_of [
  | map_data none ↦ none
  | map_data (some a) ↦ load key (maps.at a)
  | nil_interface _ ↦ none
  | other_data _ ↦ none
]

unfoldable pub set_value : Str → Any → Session Data → Maps → Session Data × Maps
set_value key value session maps = elim session.data_of [
  | map_data none ↦
      (record session { data_of = map_data (some maps.fresh) }, make_with key value maps)
  | map_data (some a) ↦ (session, assign a key value maps)
  | nil_interface true ↦
      (record session { data_of = map_data (some maps.fresh) }, make_with key value maps)
  | nil_interface false ↦ (session, maps)
  | other_data _ ↦ (session, maps)
]

-- New and NewManager.
abbrev pub new_manager : Str → ℕ → Manager
new_manager cookie_name ttl = record { cookie_name = cookie_name; ttl = ttl }

-- Save of a session that the manager made; generateRandomBytes has no part in it.
unfoldable pub save :
    {T V C G : Type 0}
    → SessionData T V
    → CacheStore V C
    → (G → Str × G)
    → Manager
    → ℕ
    → Session T
    → C × G
    → Error × (C × G)
unfolding save_session
save types cache random_id m now session state =
    (nil, save_session types cache random_id m now session state)
