-- ===== src/Openapi/Comments.antt =====
-- addons/openapi/comments.go: NewCommentParser, ParseDocs and ApplyComments. Parameter: what
-- parser.ParseDir and doc.New make of the files of a directory, the name and the comment of each type,
-- package after package in the order in which the map of packages is gone through.
pub mod Described
use amaro.Prelude.{Bool, List, [], ◌∷◌, Option, none, some, Str, if◌then◌else◌}
use amaro.Prelude.Assoc.{Assoc, load, store}
use amaro.Errors.{Error, nil, is_nil}
use amaro.Openapi.{Attributes, Schema, schema, Generator}

pub record CommentParser : Type 0 where
  pub type_docs : Assoc Str

-- A type as package doc shows it.
pub record DocType : Type 0 where
  pub name : Str
  pub doc : Str

unfoldable pub new_comment_parser : CommentParser
new_comment_parser = record { type_docs = [] }

-- schema.Description = doc
unfoldable pub describe : Str → Schema → Schema
describe doc (schema a is ps) = schema (record a { description = doc }) is ps

-- One round of ApplyComments' loop over the registered schemas, and the loop.
unfoldable pub commented : Assoc Str → Str → Schema → Schema
unfolding load describe
commented docs name s = elim (load name docs) [ none ↦ s | some doc ↦ describe doc s ]

comment_all : Assoc Str → Assoc Schema → Assoc Schema
unfolding commented
comment_all docs [] = []
comment_all docs ((name, s) ∷ m) = (name, commented docs name s) ∷ comment_all docs m

module _ (trim_space : Str → Str) (parse_dir : Str → Error × List (List DocType)) where
  note_types : List DocType → Assoc Str → Assoc Str
  unfolding store
  note_types [] docs = docs
  note_types (t ∷ types) docs = note_types types (store t.name (trim_space t.doc) docs)

  note_packages : List (List DocType) → Assoc Str → Assoc Str
  unfolding note_types
  note_packages [] docs = docs
  note_packages (types ∷ packages) docs = note_packages packages (note_types types docs)

  unfoldable pub parse_docs : Str → CommentParser → Error × CommentParser
  unfolding note_packages
  parse_docs root cp =
      let (err, packages) = parse_dir root in
      if is_nil err
      then (nil, record cp { type_docs = note_packages packages cp.type_docs })
      else (err, cp)

  unfoldable pub apply_comments : Str → Generator → Error × Generator
  unfolding parse_docs new_comment_parser comment_all
  apply_comments root g =
      let (err, cp) = parse_docs root new_comment_parser in
      if is_nil err
      then (
        nil,
        record g {
          spec = record g.spec {
            components = record g.spec.components {
              schemas = comment_all cp.type_docs g.spec.components.schemas;
            };
          };
        },
      )
      else (err, g)
