-- ===== src/Cache/Interface.antt =====
-- The interface Cache of addons/cache/cache.go, as its clients use it: operations on a state, the
-- value that a key has at a time, and what the operations do to it. MemoryCache implements it.
use amaro.Prelude.{◌≡◌, ℕ, Option, none, some, Str, str_eq, if◌then◌else◌, arith}
use amaro.Prelude.Assoc.{Assoc, load-delete}
use amaro.Cache.{Item, is_past, expiration_of, get, set, remove}
use amaro.Cache.Visible.{seen, seen-set}

pub record CacheStore (V C : Type 0) : Type 0 where
  pub get : ℕ → Str → C → Option V × C
  pub set : ℕ → Str → V → ℕ → C → C
  pub delete : Str → C → C
  pub value_at : ℕ → Str → C → Option V
  pub get_value_at : (now : ℕ) (key : Str) (c : C) → (get now key c).0 ≡ value_at now key c
  pub value_at_set :
      (now later : ℕ) (key j : Str) (value : V) (ttl : ℕ) (c : C)
      → value_at later j (set now key value ttl c) ≡ (
          if str_eq key j
          then (if is_past later (expiration_of now ttl) then none else some value)
          else value_at later j c)
  pub value_at_delete :
      (later : ℕ) (key j : Str) (c : C)
      → value_at later j (delete key c) ≡ (if str_eq key j then none else value_at later j c)

pub get-seen_now :
    {V : Type 0} (now : ℕ) (key : Str) (items : Assoc (Item V))
    → (get now key items).0 ≡ seen now key items
unfolding get seen
get-seen_now now key items = ground arith

pub remove-seen :
    {V : Type 0} (later : ℕ) (key j : Str) (items : Assoc (Item V))
    → seen later j (remove key items) ≡ (if str_eq key j then none else seen later j items)
unfolding remove seen
remove-seen later key j items = ground (arith, load-delete key j items)

abbrev pub memory_cache : {V : Type 0} → CacheStore V (Assoc (Item V))
memory_cache = record {
  get = get;
  set = set;
  delete = remove;
  value_at = seen;
  get_value_at = get-seen_now;
  value_at_set = seen-set;
  value_at_delete = remove-seen;
}
