-- ===== src/Streaming/Events/Lines.antt =====
-- Lines of a stream, as a client reads them.
use amaro.Prelude.{
  ℕ, ◌≡◌, ◌≢◌, refl, ap, ◌∙◌, false, List, [], ◌∷◌, ◌++◌, append_assoc, Str, codes, is_empty, All,
  All-append, arith,
}
use amaro.Strings.{cut, split, drop_last, after_prefix}
use amaro.Strings.Parts.{split-some}
use amaro.Strings.Join.{split-append}
use amaro.Streaming.Events.{Event, Buffers, field_value, read_field, read_lines}

unfoldable pub read_text : Str → Buffers → List Event
unfolding read_lines split
read_text text b = read_lines (split 10 text) b

cut-append_colon :
    (name rest : Str) → All (λ c. c ≢ b':') name → cut b':' (name ++ (b':' ∷ rest)) ≡ (name, rest)
unfolding cut
cut-append_colon [] rest h = refl
cut-append_colon (c ∷ name) rest (ne, h) = ground (arith, cut-append_colon name rest h)

read_lines-cons :
    (x : ℕ) (name value rest : Str) (b : Buffers)
    → All (λ c. c ≢ b':') (x ∷ name)
    → read_lines (((x ∷ name) ++ (codes ": " ++ value)) ∷ split 10 rest) b
      ≡ read_text rest (read_field (x ∷ name) value b)
unfolding read_text read_lines field_value after_prefix
read_lines-cons x name value rest b no_colon =
    let (p, ps, e) = split-some 10 rest in
    let cut_up = cut-append_colon (x ∷ name) (b' ' ∷ value) no_colon in
    rw e (ap (λ q. read_lines (p ∷ ps) (read_field q.0 (field_value q.1) b)) cut_up)

-- A line with a field.
pub read_text-field :
    (x : ℕ) (name value rest : Str) (b : Buffers)
    → All (λ c. c ≢ b':') (x ∷ name)
    → All (λ c. c ≢ 10) (x ∷ name)
    → All (λ c. c ≢ 10) value
    → read_text (((x ∷ name) ++ (codes ": " ++ (value ++ (10 ∷ [])))) ++ rest) b
      ≡ read_text rest (read_field (x ∷ name) value b)
unfolding read_text read_lines
read_text-field x name value rest b no_colon h k =
    let line = (x ∷ name) ++ (codes ": " ++ value) in
    let whole : ((x ∷ name) ++ (codes ": " ++ (value ++ (10 ∷ [])))) ++ rest ≡ line ++ (10 ∷ rest) =
      simp append_assoc in
    let no_newline : All (λ c. c ≢ 10) line =
      All-append _ (x ∷ name) _ h (omega arith, (omega arith, k)) in
    ap (λ t. read_text t b) whole
    ∙ ap (λ ls. read_lines ls b) (split-append 10 line rest no_newline)
    ∙ read_lines-cons x name value rest b no_colon

-- An empty line.
pub read_text-end :
    (rest : Str) (b : Buffers)
    → is_empty b.data_buffer ≡ false
    → read_text (10 ∷ rest) b
      ≡ record {
        event_type = b.event_buffer;
        data_of = drop_last b.data_buffer;
        last_id = b.id_buffer;
      }
        ∷ read_text rest (record { event_buffer = []; data_buffer = []; id_buffer = b.id_buffer })
unfolding read_text read_lines split
read_text-end rest b h = let (p, ps, e) = split-some 10 rest in rw (e, h) refl
