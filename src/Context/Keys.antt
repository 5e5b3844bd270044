-- ===== src/Context/Keys.antt =====
-- The values that a context holds under its keys.
use amaro.Prelude.{◌≡◌, none, some, Str, [], arith}
use amaro.Prelude.Assoc.{store, load-store_self}
use amaro.Errors.{Any}
use amaro.Context.{Context, Act, returned, ◌>>◌, set_key, get_key}

-- The context with a key set.
abbrev pub keyed : Str → Any → Context → Context
keyed key v c = record c { keys = some (store key v (elim c.keys [ none ↦ [] | some m ↦ m ])) }

pub get_key-keyed : (key : Str) (v : Any) (c : Context) → get_key key (keyed key v c) ≡ some v
unfolding get_key
get_key-keyed key v c = load-store_self key v _

module _ {S : Type 0} where
  set_key-run :
      (key : Str) (v : Any) (c : Context) (s : S)
      → set_key key v c s ≡ returned tt (keyed key v c) s
  unfolding set_key
  set_key-run key v c s = ground arith

  pub keyed-run :
      {A : Type 0} (key : Str) (v : Any) (next : Act S A) (c : Context) (s : S)
      → (set_key key v >> next) c s ≡ next (keyed key v c) s
  keyed-run key v next c s = ground (arith, set_key-run key v c s)
