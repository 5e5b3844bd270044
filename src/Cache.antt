-- ===== src/Cache.antt =====
-- addons/cache/cache.go. What UnixNano says of the clock is an argument of what reads it, and a natural
-- number; an expiration is an int64, as UnixNano makes it, and wraps around. A ttl that is not positive
-- is 0. Not modelled: the locking inside sync.Map, and the
-- goroutine that calls the clean-up every five minutes (its body is `cleanup`).
pub mod Visible
pub mod Interface
pub mod Page
use amaro.Prelude.{
  ℕ, ◌+◌, ◌==◌, ltb, Bool, true, false, List, [], ◌∷◌, Option, none, some, Str, if◌then◌else◌,
}
use amaro.Prelude.Int.{ℤ, pos, negsuc, bits64, wrap_int}
use amaro.Prelude.Assoc.{Assoc, load, store, delete}

pub record Item (V : Type 0) : Type 0 where
  pub value : V
  pub expiration : ℤ

-- The clock is behind the expiration, which is not 0.
unfoldable pub is_past : ℕ → ℤ → Bool
is_past now (pos exp) = if exp == 0 then false else ltb exp now
is_past now (negsuc exp) = true

-- The expiration that Set notes, `time.Now().Add(ttl).UnixNano()` for a positive ttl.
unfoldable pub expiration_of : ℕ → ℕ → ℤ
unfolding wrap_int
expiration_of now ttl = if ltb 0 ttl then wrap_int bits64 (pos (now + ttl)) else pos 0

module _ {V : Type 0} where
  unfoldable pub is_expired : ℕ → Item V → Bool
  unfolding is_past
  is_expired now it = is_past now it.expiration

  -- MemoryCache is its map.
  abbrev pub new_memory_cache : Assoc (Item V)
  new_memory_cache = []

  -- The value, and the cache without it if it has expired.
  unfoldable pub get : ℕ → Str → Assoc (Item V) → Option V × Assoc (Item V)
  unfolding load is_expired delete
  get now key items = elim (load key items) [
    | none ↦ (none, items)
    | some it ↦ if is_expired now it then (none, delete key items) else (some it.value, items)
  ]

  unfoldable pub set : ℕ → Str → V → ℕ → Assoc (Item V) → Assoc (Item V)
  unfolding store expiration_of
  set now key value ttl items =
      store key (record { value = value; expiration = expiration_of now ttl }) items

  unfoldable pub remove : Str → Assoc (Item V) → Assoc (Item V)
  unfolding delete
  remove key items = delete key items

  abbrev pub flush : Assoc (Item V) → Assoc (Item V)
  flush items = []

  abbrev pub keys_of : Assoc (Item V) → List Str
  keys_of [] = []
  keys_of ((key, it) ∷ items) = key ∷ keys_of items

  -- Range over the keys, each with the item it has when its turn comes.
  unfoldable pub sweep : ℕ → List Str → Assoc (Item V) → Assoc (Item V)
  unfolding load is_expired delete
  sweep now [] items = items
  sweep now (key ∷ keys) items = elim (load key items) [
    | none ↦ sweep now keys items
    | some it ↦ sweep now keys (if is_expired now it then delete key items else items)
  ]

  unfoldable pub cleanup : ℕ → Assoc (Item V) → Assoc (Item V)
  unfolding sweep
  cleanup now items = sweep now (keys_of items) items
