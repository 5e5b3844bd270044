-- ===== src/Binding/Fields.antt =====
-- checkPtr and bindData of context.go.
use amaro.Prelude.{Bool, not, List, [], ◌∷◌, none, some, Str, codes, is_empty, if◌then◌else◌}
use amaro.Prelude.Assoc.{Assoc, load}
use amaro.Errors.{Error, nil, plain, is_nil}
use amaro.Binding.{Numbers, Value, set_field}

-- A field of a struct: its name, its tags by their keys, and whether it is exported.
pub record Field (F C : Type 0) : Type 0 where
  pub name : Str
  pub tags : Assoc Str
  pub can_set : Bool
  pub value : Value F C

-- What a caller may hand over as `v`.
pub data Target (F C : Type 0) : Type 0 where
  not_pointer nil_target : Target F C
  -- a pointer to a struct, and one to something else
  struct : List (Field F C) → Target F C
  other_target : Target F C

-- Tag.Get: "" for a key that is not there
unfoldable pub tag_of : {F C : Type 0} → Str → Field F C → Str
unfolding load
tag_of key f = elim (load key f.tags) [ none ↦ [] | some t ↦ t ]

unfoldable pub check_ptr : {F C : Type 0} → Target F C → Error
check_ptr (struct fields) = nil
check_ptr other_target = nil
check_ptr _ = plain (codes "binding element must be a non-nil pointer")

-- The inputs for a field, if bindData does not skip it; the empty list sets nothing.
abbrev pub inputs_for : {F C : Type 0} → Str → Assoc (List Str) → Field F C → List Str
unfolding load tag_of
inputs_for tag values f =
    if not f.can_set
    then []
    else if is_empty (tag_of tag f)
    then []
    else elim (load (tag_of tag f) values) [ none ↦ [] | some inputs ↦ inputs ]

module _ {F C : Type 0} (quote : Str → Str) (numbers : Numbers F C) where
  -- The loop over the fields: an error ends it, with the fields as they are then.
  unfoldable pub bind_fields : Str → Assoc (List Str) → List (Field F C) → Error × List (Field F C)
  unfolding set_field inputs_for
  bind_fields tag values [] = (nil, [])
  bind_fields tag values (f ∷ fields) =
      let (e, v) = set_field quote numbers f.value (inputs_for tag values f) in
      let (e', fields') = bind_fields tag values fields in
      let f' = record f { value = v } in if is_nil e then (e', f' ∷ fields') else (e, f' ∷ fields)

  unfoldable pub bind_data : Target F C → Assoc (List Str) → Str → Error × Target F C
  unfolding bind_fields
  bind_data (struct fields) values tag =
      let (e, fields') = bind_fields tag values fields in (e, struct fields')
  bind_data t values tag = (plain (codes "binding element must be a struct"), t)
