-- ===== src/Prelude/Assoc.antt =====
-- A Go map with string keys, as an association list: a read of a missing key is `none`, a write
-- replaces the entry in place or adds one, and a deletion removes every entry of the key.
use mathlib.Core.Path.{◌≡◌, refl}
use mathlib.Core.Option.{Option, none, some}
use mathlib.Core.List.{List, [], ◌∷◌}
use native.Mathlib.Omega.{arith}
use amaro.Prelude.Tests.{Str, str_eq, str_eq_iff, str_eq_self, if◌then◌else◌}

abbrev pub Assoc {ℓ} : Type ℓ → Type ℓ
Assoc V = List (Str × V)

module _ {ℓ} {V : Type ℓ} where
  unfoldable pub load : Str → Assoc V → Option V
  load k [] = none
  load k ((j, v) ∷ m) = if str_eq j k then some v else load k m

  unfoldable pub store : Str → V → Assoc V → Assoc V
  store k v [] = (k, v) ∷ []
  store k v ((j, w) ∷ m) = if str_eq j k then (j, v) ∷ m else (j, w) ∷ store k v m

  unfoldable pub delete : Str → Assoc V → Assoc V
  delete k [] = []
  delete k ((j, w) ∷ m) = let rest = delete k m in if str_eq j k then rest else (j, w) ∷ rest

  pub load-store :
      (k j : Str) (v : V) (m : Assoc V)
      → load j (store k v m) ≡ (if str_eq k j then some v else load j m)
  unfolding load store
  load-store k j v [] = refl
  load-store k j v ((i, w) ∷ m) =
      ground (arith, str_eq_iff k j, str_eq_iff i k, str_eq_iff i j, load-store k j v m)

  pub load-delete :
      (k j : Str) (m : Assoc V) → load j (delete k m) ≡ (if str_eq k j then none else load j m)
  unfolding load delete
  load-delete k j [] = ground arith
  load-delete k j ((i, w) ∷ m) =
      ground (arith, str_eq_iff k j, str_eq_iff i k, str_eq_iff i j, load-delete k j m)

  pub load-store_self : (k : Str) (v : V) (m : Assoc V) → load k (store k v m) ≡ some v
  load-store_self k v m = simp (load-store, str_eq_self)
