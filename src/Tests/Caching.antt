-- ===== src/Tests/Caching.antt =====
-- The cache over a few instants.
use amaro.Prelude.{
  ℕ, ◌≡◌, refl, ◌+◌, ◌&&◌, ltb, [], none, some, codes, str_eq, arith, if◌then◌else◌,
}
use amaro.Prelude.Assoc.{Assoc}
use amaro.Cache.{Item, is_past, expiration_of, get, set}
use amaro.Cache.Visible.{seen, set-seen, get-seen}
use amaro.Prelude.{suc, Option, Str, true, ◌∷◌}
use amaro.Errors.{Any, string, other}
use amaro.Cache.Interface.{memory_cache}
use amaro.Sessions.{Session, Manager, SessionData, get_session, save_session}
use amaro.Sessions.Maps.{Data, map_data, Maps, get_value, set_value}
use amaro.Sessions.Maps.Shared.{set_value-shared}

abbrev filled : Assoc (Item ℕ)
unfolding set
filled = set 100 (codes "a") 1 50 (set 100 (codes "b") 2 0 [])

set-seen_example : seen 160 (codes "b") (set 100 (codes "a") 1 50 filled) ≡ (
    if str_eq (codes "a") (codes "b")
    then (if ltb 0 50 && ltb (100 + 50) 160 then none else some 1)
    else seen 160 (codes "b") filled)
set-seen_example = set-seen 100 160 (codes "a") (codes "b") 1 50 filled (omega arith)

-- A ttl that ends after the year 2262 is over at once.
overflows : (get {V = ℕ} 160 (codes "a") (set 160 (codes "a") 1 9223372036854775800 [])).0 ≡ none
unfolding get set str_eq
overflows = refl

get-seen_example :
    ((get 160 (codes "a") filled).0 ≡ seen 160 (codes "a") filled)
    × (seen 200 (codes "b") ((get 160 (codes "a") filled).1) ≡ seen 200 (codes "b") filled)
get-seen_example = get-seen 160 200 (codes "a") (codes "b") filled (omega arith)

expires : (get 160 (codes "a") filled).0 ≡ none
unfolding get set str_eq
expires = refl

stays : (get 160 (codes "b") filled).0 ≡ some 2
unfolding get set str_eq
stays = refl

abbrev number_of : Any → Option ℕ
number_of (string s) = none
number_of (other n) = some n

abbrev pub numbers : SessionData ℕ Any
numbers = record { zero_value = 0; to_value = other; of_value = number_of; of_to = λ x. refl }

abbrev pub next_id : ℕ → Str × ℕ
next_id g = (g ∷ [], suc g)

abbrev pub manager : Manager
manager = record { cookie_name = codes "sid"; ttl = 60 }

abbrev session_7 : Session ℕ
session_7 = record { id = codes "s7"; data_of = 7; is_new = true }

-- A session whose data is the map at the address 3.
abbrev map_types : SessionData Data Data
map_types = record {
  zero_value = map_data none;
  to_value = λ d. d;
  of_value = some;
  of_to = λ x. refl;
}

abbrev map_session : Session Data
map_session = record { id = codes "s3"; data_of = map_data (some 3); is_new = true }

abbrev no_maps : Maps
no_maps = record { at = λ a. []; fresh = 4 }

abbrev seen_at : ℕ → Session Data
seen_at later =
    (get_session map_types memory_cache next_id manager later (codes "s3")
      (save_session map_types memory_cache next_id manager 100 map_session ([], 65))).0

set_value-shared_example :
    get_value
      (codes "user")
      (seen_at 130)
      (set_value (codes "user") (string (codes "ann")) (seen_at 120) no_maps).1
    ≡ (if str_eq (codes "user") (codes "user")
        then some (string (codes "ann"))
        else get_value (codes "user") (seen_at 130) no_maps)
unfolding is_past expiration_of
set_value-shared_example =
    set_value-shared map_types memory_cache next_id manager 100 120 130 (codes "user")
      (codes "user") (string (codes "ann")) map_session 3 no_maps [] 65 refl refl refl
