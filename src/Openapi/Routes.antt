-- ===== src/Openapi/Routes.antt =====
-- NewGenerator and AddRoute of addons/openapi/generator.go.
pub mod Documented
use amaro.Prelude.{[], ◌∷◌, Option, none, some, Str, codes, str_eq, if◌then◌else◌}
use amaro.Prelude.Assoc.{load, store}
use amaro.Strings.{to_upper}
use amaro.Openapi.{Info, Operation, PathItem, OpenApi, Generator}

unfoldable pub new_generator : Info → Generator
new_generator info = record {
  spec = record {
    openapi = codes "3.0.0";
    info = info;
    servers = [];
    paths = [];
    components = record { schemas = []; security_schemes = [] };
  };
}

-- `&PathItem{}`
unfoldable pub new_path_item : PathItem
new_path_item = record {
  summary = [];
  description = [];
  get = none;
  put = none;
  post = none;
  delete = none;
  options = none;
  head = none;
  patch = none;
  trace = none;
}

-- The switch on the method.
set_operation : Str → Operation → PathItem → PathItem
unfolding str_eq
set_operation method op item =
    if str_eq method (codes "GET")
    then record item { get = some op }
    else if str_eq method (codes "POST")
    then record item { post = some op }
    else if str_eq method (codes "PUT")
    then record item { put = some op }
    else if str_eq method (codes "DELETE")
    then record item { delete = some op }
    else if str_eq method (codes "PATCH")
    then record item { patch = some op }
    else if str_eq method (codes "OPTIONS")
    then record item { options = some op }
    else if str_eq method (codes "HEAD")
    then record item { head = some op }
    else item

-- The item of the path, which is made when there is none.
item_at : Str → OpenApi → PathItem
unfolding load new_path_item
item_at path spec = elim (load path spec.paths) [ none ↦ new_path_item | some item ↦ item ]

unfoldable pub add_route : Str → Str → Operation → Generator → Generator
unfolding store to_upper set_operation item_at
add_route method path op g = record g {
  spec = record g.spec {
    paths = store path (set_operation (to_upper method) op (item_at path g.spec)) g.spec.paths;
  };
}
