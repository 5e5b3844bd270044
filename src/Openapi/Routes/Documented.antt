-- ===== src/Openapi/Routes/Documented.antt =====
-- A document as a map from methods and paths to operations, and AddRoute as a write to it.
use amaro.Prelude.{
  ◌≡◌, refl, sym, inl, inr, true, false, ◌&&◌, Option, none, some, Option-cases, Str, str_eq,
  str_eq_iff, str_eq_sound, if◌then◌else◌, arith,
}
use amaro.Prelude.Assoc.{load, store, load-store}
use amaro.Http.Method
use amaro.Http.Method.{
  Verb, get_verb, post_verb, put_verb, delete_verb, patch_verb, options_verb, head_verb, name,
}
use amaro.Strings.{to_upper}
use amaro.Openapi.{Operation, PathItem, OpenApi, Generator}
use amaro.Openapi.Routes.{new_path_item, set_operation, item_at, add_route}

unfoldable pub operation_at : Verb → PathItem → Option Operation
operation_at get_verb item = item.get
operation_at post_verb item = item.post
operation_at put_verb item = item.put
operation_at delete_verb item = item.delete
operation_at patch_verb item = item.patch
operation_at options_verb item = item.options
operation_at head_verb item = item.head

-- The operation of the method at the path in the document.
unfoldable pub operation_of : Verb → Str → OpenApi → Option Operation
unfolding load operation_at
operation_of verb path spec = elim (load path spec.paths) [
  | none ↦ none
  | some item ↦ operation_at verb item
]

str_eq-distinct : (s t u : Str) → str_eq t u ≡ false → str_eq s t ≡ true → str_eq s u ≡ false
str_eq-distinct s t u ne e = rw (sym (str_eq_sound s t e)) at ne

operation_at-set_operation :
    (verb : Verb) (method : Str) (op : Operation) (item : PathItem)
    → operation_at verb (set_operation method op item)
      ≡ (if str_eq method (name verb) then some op else operation_at verb item)
unfolding operation_at set_operation str_eq
operation_at-set_operation get_verb method op item = ground arith
operation_at-set_operation post_verb method op item =
    ground (arith, str_eq-distinct method Method.get Method.post refl)
operation_at-set_operation put_verb method op item = ground (
  arith,
  str_eq-distinct method Method.get Method.put refl,
  str_eq-distinct method Method.post Method.put refl,
)
operation_at-set_operation delete_verb method op item = ground (
  arith,
  str_eq-distinct method Method.get Method.delete refl,
  str_eq-distinct method Method.post Method.delete refl,
  str_eq-distinct method Method.put Method.delete refl,
)
operation_at-set_operation patch_verb method op item = ground (
  arith,
  str_eq-distinct method Method.get Method.patch refl,
  str_eq-distinct method Method.post Method.patch refl,
  str_eq-distinct method Method.put Method.patch refl,
  str_eq-distinct method Method.delete Method.patch refl,
)
operation_at-set_operation options_verb method op item = ground (
  arith,
  str_eq-distinct method Method.get Method.options refl,
  str_eq-distinct method Method.post Method.options refl,
  str_eq-distinct method Method.put Method.options refl,
  str_eq-distinct method Method.delete Method.options refl,
  str_eq-distinct method Method.patch Method.options refl,
)
operation_at-set_operation head_verb method op item = ground (
  arith,
  str_eq-distinct method Method.get Method.head refl,
  str_eq-distinct method Method.post Method.head refl,
  str_eq-distinct method Method.put Method.head refl,
  str_eq-distinct method Method.delete Method.head refl,
  str_eq-distinct method Method.patch Method.head refl,
  str_eq-distinct method Method.options Method.head refl,
)

operation_at-new_path_item : (verb : Verb) → operation_at verb new_path_item ≡ none
unfolding operation_at new_path_item
operation_at-new_path_item get_verb = refl
operation_at-new_path_item post_verb = refl
operation_at-new_path_item put_verb = refl
operation_at-new_path_item delete_verb = refl
operation_at-new_path_item patch_verb = refl
operation_at-new_path_item options_verb = refl
operation_at-new_path_item head_verb = refl

item_at-operation :
    (verb : Verb) (path : Str) (spec : OpenApi)
    → operation_at verb (item_at path spec) ≡ operation_of verb path spec
unfolding operation_of item_at
item_at-operation verb path spec = elim (Option-cases (load path spec.paths)) [
  | inl e ↦ rw (e, operation_of, item_at) (operation_at-new_path_item verb)
  | inr (item, e) ↦ rw (e, operation_of, item_at) refl
]

operation_of-store :
    (verb : Verb) (p path : Str) (item : PathItem) (spec : OpenApi)
    → operation_of verb p (record spec { paths = store path item spec.paths })
      ≡ (if str_eq path p then operation_at verb item else operation_of verb p spec)
unfolding operation_of
operation_of-store verb p path item spec = ground (arith, load-store path p item spec.paths)

-- AddRoute is a write to the map from methods and paths to operations: the method in upper case, if
-- it is GET, POST, PUT, DELETE, PATCH, OPTIONS or HEAD, has the operation at the path afterwards, and
-- every other entry of the document is what it was.
pub add_route-documented :
    (verb : Verb) (p method path : Str) (op : Operation) (g : Generator)
    → operation_of verb p (add_route method path op g).spec ≡ (
        if str_eq (to_upper method) (name verb) && str_eq path p
        then some op
        else operation_of verb p g.spec)
unfolding add_route
add_route-documented verb p method path op g =
    let item = item_at path g.spec in
    ground (
      arith,
      operation_of-store verb p path (set_operation (to_upper method) op item) g.spec,
      operation_at-set_operation verb (to_upper method) op item,
      item_at-operation verb path g.spec,
      str_eq_iff path p,
    )
