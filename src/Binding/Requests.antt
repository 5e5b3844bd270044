-- ===== src/Binding/Requests.antt =====
-- BindQuery, BindForm and BindJSON of context.go, on a context that has a request.
pub mod Accepted
use amaro.Prelude.{Bool, true, false, List, Str, codes, if◌then◌else◌}
use amaro.Prelude.Assoc.{Assoc}
use amaro.Errors.{Error, nil, plain, is_nil}
use amaro.Http.{Request}
use amaro.Binding.{Numbers}
use amaro.Binding.Fields.{Target, check_ptr, bind_data}
use amaro.Binding.Validation.{validate_struct}

module _ {F C : Type 0} (quote : Str → Str) (numbers : Numbers F C) where
  -- What follows checkPtr in BindQuery and BindForm.
  abbrev bind_and_validate : Target F C → Assoc (List Str) → Str → Error × Target F C
  unfolding bind_data validate_struct
  bind_and_validate t values tag =
      let (e, t') = bind_data quote numbers t values tag in
      if is_nil e then (validate_struct numbers t', t') else (e, t')

  unfoldable pub bind_query : Request → Target F C → Error × Target F C
  unfolding check_ptr bind_and_validate
  bind_query r t =
      if is_nil (check_ptr t) then bind_and_validate t r.query (codes "query") else (check_ptr t, t)

  -- `parse_form` is Request.ParseForm: its error, and the map Request.Form that it leaves.
  unfoldable pub bind_form :
      (parse_form : Request → Error × Assoc (List Str)) → Request → Target F C → Error × Target F C
  unfolding check_ptr bind_and_validate
  bind_form parse_form r t =
      let (e, form) = parse_form r in
      if is_nil (check_ptr t)
      then if is_nil e then bind_and_validate t form (codes "form") else (e, t)
      else (check_ptr t, t)

  -- `decode` is the JSON decoder on the request's body, if there is one.
  unfoldable pub bind_json :
      (has_body : Bool)
      → (decode : Target F C → Error × Target F C) → Target F C
      → Error × Target F C
  unfolding check_ptr validate_struct
  bind_json has_body decode t =
      let (e, t') = decode t in
      if has_body
      then if is_nil (check_ptr t)
        then if is_nil e then (validate_struct numbers t', t') else (e, t')
        else (check_ptr t, t)
      else (plain (codes "request body is empty"), t)
