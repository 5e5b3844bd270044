-- ===== src/Http/Fields.antt =====
-- What a header map holds after Header.Set.
use amaro.Prelude.{◌≡◌, [], ◌∷◌, Str, str_eq, if◌then◌else◌, arith}
use amaro.Prelude.Assoc.{load-store}
use amaro.Http.{Header, header_get, header_set, canonical_key}

pub header_get-set :
    (k j v : Str) (h : Header)
    → header_get j (header_set k v h)
      ≡ (if str_eq (canonical_key k) (canonical_key j) then v else header_get j h)
unfolding header_get header_set
header_get-set k j v h = ground (arith, load-store (canonical_key k) (canonical_key j) (v ∷ []) h)
