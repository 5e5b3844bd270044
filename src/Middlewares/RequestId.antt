-- ===== src/Middlewares/RequestId.antt =====
-- middlewares/request_id.go. crypto/rand is the parameter `random`: so many bytes, and the memory after.
pub mod Echo
use amaro.Prelude.{ℕ, ◌+◌, ◌/◌, ◌%◌, ltb, List, [], ◌∷◌, Str, codes, is_empty, if◌then◌else◌}
use amaro.Errors.{Error, string}
use amaro.Http.{header_get}
use amaro.Context.{Act, returned, Middleware, ◌>>=◌, ◌>>◌, pure, the_request, set_header, set_key}

abbrev pub request_id_key : Str
request_id_key = codes "request_id"

abbrev hex_digit : ℕ → ℕ
hex_digit n = if ltb n 10 then n + b'0' else n + 87

-- hex.EncodeToString
unfoldable pub hex : Str → Str
hex [] = []
hex (b ∷ bytes) = hex_digit (b / 16) ∷ hex_digit (b % 16) ∷ hex bytes

module _ {S : Type 0} (random : ℕ → S → Str × S) where
  -- The id that the client sent, or else a new one.
  unfoldable pub pick : Str → S → Str × S
  unfolding hex
  pick rid s = if is_empty rid then (let (id, s') = random 16 s in (hex id, s')) else (rid, s)

  picked : Str → Act S Str
  unfolding pick
  picked rid c s = let (id, s') = pick rid s in returned id c s'

  unfoldable pub request_id : Middleware S
  unfolding the_request header_get picked set_header set_key
  request_id next = do
    r ← the_request
    rid ← picked (header_get (codes "X-Request-ID") r.header)
    set_header (codes "X-Request-ID") rid
    set_key request_id_key (string rid)
    next
