-- ===== src/Binding/Validation/Rules.antt =====
-- What validateStruct asks of a struct.
use amaro.Prelude.{
  ◌≡◌, refl, ap, subst, ◌↔◌, inl, inr, Bool, true, false, not, List, [], ◌∷◌, ◌++◌, All, some, Str,
  codes, str_eq, str_eq_iff, is_empty, Bool-cases, Option-cases, arith,
}
use amaro.Strings.{after_prefix}
use amaro.Errors.{nil}
use amaro.Strconv.{atoi_value}
use amaro.Binding.{Numbers}
use amaro.Binding.Validation.Meaning.{
  IsZero, IsAtLeast, IsAtMost, is_zero-IsZero_iff, check_min-IsAtLeast_iff, check_max-IsAtMost_iff,
}
use amaro.Binding.Fields.{Field, struct}
use amaro.Binding.Validation.{
  is_zero, unless, check_rule, check_rules, rules_of, check_fields, validate_struct,
}

after_prefix_sound : (p s t : Str) → after_prefix p s ≡ some t → s ≡ p ++ t
unfolding after_prefix
after_prefix_sound [] s t h = ground arith
after_prefix_sound (a ∷ p) [] t h = cc
after_prefix_sound (a ∷ p) (c ∷ s) t h = ground (arith, after_prefix_sound p s t)

unless-nil_iff : (b : Bool) (m : Str) → (unless b m ≡ []) ↔ (b ≡ true)
unfolding unless
unless-nil_iff true m = (λ e. refl, λ e. refl)
unless-nil_iff false m = (λ e. cc e, λ e. cc e)

not-true : (b : Bool) → not b ≡ true → b ≡ false
not-true b h = ground arith

append-nil_iff : {A : Type 0} (xs ys : List A) → (xs ++ ys ≡ []) ↔ ((xs ≡ []) × (ys ≡ []))
append-nil_iff [] ys = (λ e. (refl, e), λ (_, e). e)
append-nil_iff (x ∷ xs) ys = (λ e. cc e, λ (e, _). cc e)

module _ {F C : Type 0} (numbers : Numbers F C) where
  -- What a rule of the tag `validate` asks of a field.
  pub record Satisfies (f : Field F C) (rule : Str) : Type 0 where
    pub required : rule ≡ codes "required" → ¬ IsZero numbers f.value
    pub at_least : (s : Str) → rule ≡ codes "min=" ++ s → IsAtLeast numbers (atoi_value s) f.value
    pub at_most : (s : Str) → rule ≡ codes "max=" ++ s → IsAtMost numbers (atoi_value s) f.value

  check_rule-Satisfies :
      (f : Field F C) (rule : Str) → check_rule numbers f rule ≡ [] → Satisfies f rule
  unfolding check_rule str_eq after_prefix
  check_rule-Satisfies f rule h = record {
    required = λ e zero.
        let not_zero = not-true _ ((unless-nil_iff _ _).0 (at_rule e)) in
        let is = (is_zero-IsZero_iff numbers f.value).1 zero in ground (arith, not_zero, is);
    at_least = λ s e.
        (check_min-IsAtLeast_iff numbers f.value (atoi_value s)).0
          ((unless-nil_iff _ _).0 (at_rule e));
    at_most = λ s e.
        (check_max-IsAtMost_iff numbers f.value (atoi_value s)).0
          ((unless-nil_iff _ _).0 (at_rule e));
  }
    where
      at_rule : {other : Str} → rule ≡ other → check_rule numbers f other ≡ []
      at_rule e = subst (λ (k : Str). check_rule numbers f k ≡ []) e h

  Satisfies-check_rule :
      (f : Field F C) (rule : Str) → Satisfies f rule → check_rule numbers f rule ≡ []
  unfolding check_rule
  Satisfies-check_rule f rule sat = elim (Bool-cases (str_eq rule (codes "required"))) [
    | inl e ↦
        rw (check_rule, e)
          ((unless-nil_iff _ _).1
            (ap not (not_zero (sat.required ((str_eq_iff rule (codes "required")).0 e)))))
    | inr e ↦ elim (Option-cases (after_prefix (codes "min=") rule)) [
      | inr (s, k) ↦
          rw (check_rule, e, k)
            ((unless-nil_iff _ _).1 (
              (check_min-IsAtLeast_iff numbers f.value (atoi_value s)).1
                (sat.at_least s (after_prefix_sound (codes "min=") rule s k))))
      | inl k ↦ elim (Option-cases (after_prefix (codes "max=") rule)) [
        | inr (s, l) ↦
            rw (check_rule, e, k, l)
              ((unless-nil_iff _ _).1 (
                (check_max-IsAtMost_iff numbers f.value (atoi_value s)).1
                  (sat.at_most s (after_prefix_sound (codes "max=") rule s l))))
        | inl l ↦ rw (check_rule, e, k, l) refl
      ]
    ]
  ]
    where
      not_zero : ¬ IsZero numbers f.value → is_zero numbers f.value ≡ false
      not_zero h = elim (Bool-cases (is_zero numbers f.value)) [
        | inl e ↦ absurd (h ((is_zero-IsZero_iff numbers f.value).0 e))
        | inr e ↦ e
      ]

  check_rules-nil_iff :
      (f : Field F C) (rules : List Str)
      → (check_rules numbers f rules ≡ []) ↔ All (Satisfies f) rules
  unfolding check_rules
  check_rules-nil_iff f [] = (λ e. tt, λ _. refl)
  check_rules-nil_iff f (rule ∷ rules) =
      let (split_up, join_up) =
        append-nil_iff (check_rule numbers f rule) (check_rules numbers f rules) in
      let (sound, complete) = check_rules-nil_iff f rules in
      (
        λ e. let (first, rest) = split_up e in (check_rule-Satisfies f rule first, sound rest),
        λ (first, rest). join_up (Satisfies-check_rule f rule first, complete rest),
      )

  -- Every field satisfies the rules of its own tag.
  abbrev pub IsValid : List (Field F C) → Type 0
  IsValid = All (λ f. All (Satisfies f) (rules_of f))

  check_fields-nil_iff :
      (fields : List (Field F C)) → (check_fields numbers fields ≡ []) ↔ IsValid fields
  unfolding check_fields
  check_fields-nil_iff [] = (λ e. tt, λ _. refl)
  check_fields-nil_iff (f ∷ fields) =
      let (split_up, join_up) =
        append-nil_iff (check_rules numbers f (rules_of f)) (check_fields numbers fields) in
      let (sound, complete) = check_rules-nil_iff f (rules_of f) in
      let (sound', complete') = check_fields-nil_iff fields in
      (
        λ e. let (first, rest) = split_up e in (sound first, sound' rest),
        λ (first, rest). join_up (complete first, complete' rest),
      )

  is_empty-nil : (messages : List Str) → is_empty messages ≡ true → messages ≡ []
  is_empty-nil [] h = refl
  is_empty-nil (m ∷ messages) h = cc

  pub validate_struct-nil_iff :
      (fields : List (Field F C)) → (validate_struct numbers (struct fields) ≡ nil) ↔ IsValid fields
  unfolding validate_struct
  validate_struct-nil_iff fields =
      let (sound, complete) = check_fields-nil_iff fields in
      (
        λ h. elim (Bool-cases (is_empty (check_fields numbers fields))) [
          | inl e ↦ sound (is_empty-nil _ e)
          | inr e ↦ absurd (ground (arith, e, h))
        ],
        λ v. rw (validate_struct, complete v) refl,
      )
