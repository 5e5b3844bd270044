-- ===== src/Htmx.antt =====
-- addons/htmx/htmx.go. The encoding of a map in JSON, or its error, is an argument.
use amaro.Prelude.{Bool, Str, codes, str_eq, if◌then◌else◌}
use amaro.Errors.{Error, nil, is_nil}
use amaro.Context.{Context, Act, ◌>>◌, pure, get_header, set_header}

unfoldable pub is_htmx : Context → Bool
unfolding get_header str_eq
is_htmx c = str_eq (get_header (codes "HX-Request") c) (codes "true")

module _ {S : Type 0} where
  unfoldable pub trigger : Str → Act S (Unit {0})
  unfolding set_header
  trigger event = set_header (codes "HX-Trigger") event

  unfoldable pub trigger_json : Error × Str → Act S Error
  unfolding set_header
  trigger_json (err, encoded) =
      if is_nil err then set_header (codes "HX-Trigger") encoded >> pure nil else pure err

  unfoldable pub push_url : Str → Act S (Unit {0})
  unfolding set_header
  push_url url = set_header (codes "HX-Push-Url") url

  unfoldable pub hx_redirect : Str → Act S (Unit {0})
  unfolding set_header
  hx_redirect url = set_header (codes "HX-Redirect") url

  unfoldable pub refresh : Act S (Unit {0})
  unfolding set_header
  refresh = set_header (codes "HX-Refresh") (codes "true")

  unfoldable pub retarget : Str → Act S (Unit {0})
  unfolding set_header
  retarget target = set_header (codes "HX-Retarget") target

  unfoldable pub reswap : Str → Act S (Unit {0})
  unfolding set_header
  reswap swap = set_header (codes "HX-Reswap") swap
