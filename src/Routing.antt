-- ===== src/Routing.antt =====
-- router.go: routes, the two parsers of a path's segments, and the configuration; and the
-- compilation of middlewares of amaro.go.
pub mod Compiled
use amaro.Prelude.{
  ℕ, zero, suc, ◌-◌, ◌<◌, Bool, true, false, ◌&&◌, List, [], ◌∷◌, ◌++◌, codes, Option, none, some,
  Str, ltb, length, if◌then◌else◌,
}
use amaro.Strings.{starts_with_byte, ends_with_byte, drop_last, drop_first, has_suffix}
use amaro.Errors.{Error, nil, is_nil}
use amaro.Context.{Context, Handler, Middleware}

-- A nil Handler is `none`.
pub record Route (S : Type 0) : Type 0 where
  pub method : Str
  pub path : Str
  pub handler : Option (Handler S)
  pub middlewares : List (Middleware S)

-- The two results of Find, of which one is nil.
pub data FindResult (S : Type 0) : Type 0 where
  found : Route S → FindResult S
  failed : Error → FindResult S

-- What an App and a Group call of the interface Router. `R` is the router's state, which a method
-- that writes to it returns.
pub record Router (S R : Type 0) : Type 0 where
  pub add : Str → Str → Handler S → List (Middleware S) → R → Error × R
  pub find : Str → Str → Option Context → R → FindResult S × Option Context

abbrev pub no_route : {S : Type 0} → Route S
no_route = record { method = []; path = []; handler = none; middlewares = [] }

-- ParamParser and WildcardParser have one type: a yes or no, and the name.
abbrev pub SegmentParser : Type 0
SegmentParser = Str → Bool × Str

-- A nil parser is `none`.
pub record RouterConfig : Type 0 where
  pub param_parser : Option SegmentParser
  pub wildcard_parser : Option SegmentParser

unfoldable pub default_param_parser : SegmentParser
unfolding starts_with_byte ends_with_byte drop_first drop_last
default_param_parser segment =
    if starts_with_byte b':' segment
    then (true, drop_first segment)
    else if ltb 2 (length segment) && (starts_with_byte b'{' segment && ends_with_byte b'}' segment)
    then (true, drop_last (drop_first segment))
    else (false, [])

unfoldable pub default_wildcard_parser : SegmentParser
unfolding starts_with_byte drop_first
default_wildcard_parser segment =
    if starts_with_byte b'*' segment then (true, drop_first segment) else (false, [])

unfoldable pub default_router_config : RouterConfig
unfolding default_param_parser default_wildcard_parser
default_router_config = record {
  param_parser = some default_param_parser;
  wildcard_parser = some default_wildcard_parser;
}

-- What the two parsers say of a segment: the first of the three branches of Add that takes it.
pub data Segment : Type 0 where
  static : Str → Segment
  param : Str → Segment
  wildcard : Str → Segment

abbrev parse : Option SegmentParser → Str → Bool × Str
parse none part = (false, [])
parse (some p) part = p part

-- The parsing at the head of a round of Add.
unfoldable pub classify : RouterConfig → Str → Segment
classify cfg part =
    let (is_param, param_name) = parse cfg.param_parser part in
    let (is_wildcard, wildcard_name) = parse cfg.wildcard_parser part in
    if is_param
    then param param_name
    else if is_wildcard
    then wildcard wildcard_name
    else static part

-- `middlewares[i]`; the loops below stay in range.
abbrev at : {S : Type 0} → List (Middleware S) → ℕ → Middleware S
at [] i = λ next. next
at (m ∷ ms) zero = m
at (m ∷ ms) (suc i) = at ms i

-- The loop of Compile and Chain, with the rounds that are left: `i` is one less.
compile_from : {S : Type 0} → ℕ → List (Middleware S) → Handler S → Handler S
compile_from zero ms handler = handler
compile_from (suc i) ms handler = compile_from i ms (at ms i handler)

unfoldable pub compile : {S : Type 0} → Handler S → List (Middleware S) → Handler S
unfolding compile_from
compile handler ms = compile_from (length ms) ms handler

unfoldable pub chain : {S : Type 0} → List (Middleware S) → Middleware S
unfolding compile_from
chain ms next = compile_from (length ms) ms next

-- The loop of Any, of the App and of a Group: it stops at the first error.
unfoldable pub add_each :
    {S R : Type 0} → Router S R → List Str → Str → Handler S → List (Middleware S) → R → Error × R
add_each ops [] path h ms r = (nil, r)
add_each ops (method ∷ methods) path h ms r =
    let (e, r') = ops.add method path h ms r in
    if is_nil e then add_each ops methods path h ms r' else (e, r')

-- The paths of Mount: its own, and the one with a wildcard below it.
unfoldable pub wildcard_path : Str → Str
unfolding has_suffix
wildcard_path path =
    (if has_suffix (b'/' ∷ []) path then path else path ++ (b'/' ∷ [])) ++ codes "*filepath"
