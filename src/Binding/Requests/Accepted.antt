-- ===== src/Binding/Requests/Accepted.antt =====
-- What BindQuery accepts, and what it leaves in the struct.
use amaro.Prelude.{◌≡◌, List, map, Str, codes}
use amaro.Prelude.Assoc.{Assoc}
use amaro.Errors.{Error, nil}
use amaro.Http.{Request}
use amaro.Binding.{Numbers, set_field}
use amaro.Binding.Fields.{Field, inputs_for, bind_fields}

module _ {F C : Type 0} (quote : Str → Str) (numbers : Numbers F C) where
  module _ (tag : Str) (values : Assoc (List Str)) where
    -- A field after setField on its own inputs, and that setField returns no error.
    abbrev pub bound_field : Field F C → Field F C
    bound_field f = record f {
      value = (set_field quote numbers f.value (inputs_for tag values f)).1;
    }

    abbrev pub IsParsed : Field F C → Type 0
    IsParsed f = (set_field quote numbers f.value (inputs_for tag values f)).0 ≡ nil

  module _ (r : Request) (fields : List (Field F C)) where
    abbrev bound : List (Field F C)
    bound = map (bound_field (codes "query") r.query) fields

    abbrev parsed_fields : Error × List (Field F C)
    parsed_fields = bind_fields quote numbers (codes "query") r.query fields
