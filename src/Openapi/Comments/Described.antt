-- ===== src/Openapi/Comments/Described.antt =====
-- The registry after ApplyComments.
use amaro.Prelude.{
  ◌≡◌, ◌∙◌, subst, List, refl, inl, inr, Bool-cases, [], ◌∷◌, none, some, Option-cases, Str,
  str_eq_iff, arith,
}
use amaro.Prelude.Assoc.{Assoc, load}
use amaro.Errors.{Error, is_nil}
use amaro.Openapi.{Schema, schema, Generator}
use amaro.Openapi.Reflection.{Schemas}
use amaro.Openapi.Complete.{RegistryIsClosed, IsComplete, with_schemas, with_schemas-IsComplete}
use amaro.Openapi.Reflection.Closed.{IsClosed, Keeps, IsClosed-Keeps}
use amaro.Openapi.Comments.{
  DocType, describe, commented, comment_all, new_comment_parser, parse_docs, apply_comments,
}

load-comment_all :
    (docs : Assoc Str) (key : Str) (m : Schemas)
    → load key (comment_all docs m)
      ≡ elim (load key m) [ none ↦ none | some s ↦ some (commented docs key s) ]
unfolding load comment_all
load-comment_all docs key [] = refl
load-comment_all docs key ((name, s) ∷ m) =
    ground (arith, str_eq_iff name key, load-comment_all docs key m)

IsClosed-commented :
    (docs : Assoc Str) (key : Str) (m : Schemas) (s : Schema)
    → IsClosed m s
    → IsClosed m (commented docs key s)
unfolding IsClosed commented describe
IsClosed-commented docs key m (schema a is ps) h = elim (Option-cases (load key docs)) [
  | inl e ↦ rw (e, commented) h
  | inr (doc, e) ↦ rw (e, commented) h
]

comment_all-Keeps : (docs : Assoc Str) (m : Schemas) → Keeps m (comment_all docs m)
comment_all-Keeps docs m key s e = (commented docs key s, load-comment_all docs key m ∙ (rw e refl))

comment_all-RegistryIsClosed :
    (docs : Assoc Str) (m : Schemas) → RegistryIsClosed m → RegistryIsClosed (comment_all docs m)
comment_all-RegistryIsClosed docs m h key s e = elim (Option-cases (load key m)) [
  | inl e' ↦ absurd (ground (arith, load-comment_all docs key m))
  | inr (s', e') ↦
      let same : commented docs key s' ≡ s = ground (arith, load-comment_all docs key m) in
      subst (IsClosed (comment_all docs m)) same (
        IsClosed-Keeps m (comment_all docs m) (commented docs key s') (comment_all-Keeps docs m)
          (IsClosed-commented docs key m s' (h key s' e')))
]

module _ (trim_space : Str → Str) (parse_dir : Str → Error × List (List DocType)) where
  -- ApplyComments changes descriptions only, or nothing where it returns an error.
  pub apply_comments-IsComplete :
      (root : Str) (g : Generator)
      → IsComplete g.spec
      → IsComplete (apply_comments trim_space parse_dir root g).1.spec
  unfolding apply_comments
  apply_comments-IsComplete root g h =
      let m = g.spec.components.schemas in
      let docs = (parse_docs trim_space parse_dir root new_comment_parser).1.type_docs in
      let done : IsComplete (with_schemas (comment_all docs m) g).spec =
        with_schemas-IsComplete (comment_all docs m) g (comment_all-Keeps docs m)
          (comment_all-RegistryIsClosed docs m h.0) h in
      elim (Bool-cases (is_nil (parse_docs trim_space parse_dir root new_comment_parser).0)) [
        | inl e ↦ rw (e, apply_comments) done
        | inr e ↦ rw (e, apply_comments) h
      ]
