-- ===== src/Streaming/Events.antt =====
-- How a client reads the messages of a stream.
pub mod Lines
pub mod Sent
pub mod Received
use amaro.Prelude.{
  ℕ, ◌≡◌, ◌≢◌, refl, ap, sym, ◌∙◌, Bool, true, false, List, [], ◌∷◌, ◌++◌, append_assoc, Option,
  none, some, Str, codes, str_eq, is_empty, All, arith, ◌==◌, ◌||◌, if◌then◌else◌,
}
use amaro.Prelude.Int.{ℤ, pos, negsuc}
use amaro.Prelude.Decimal.{itoa, itoa-All_ne}
use amaro.Strings.{cut, split, drop_last, after_prefix}
use amaro.Strings.Join.{split-append}
use amaro.Strconv.{format_int}
use amaro.Errors.{Error, nil}
use amaro.Http.{Writer, flush, write}
use amaro.Context.{Context, Outcome, returned, Act, ◌>>=◌, ◌>>◌, pure, on_writer}
use amaro.Streaming.{SseMessage, stream_write, write_field, send_message}

-- An event as the standard of server-sent events has it, and the buffers of its interpretation. The
-- reconnection time is no part of an event.
pub record Event : Type 0 where
  pub event_type : Str
  pub data_of : Str
  pub last_id : Str

pub record Buffers : Type 0 where
  pub event_buffer : Str
  pub data_buffer : Str
  pub id_buffer : Str

-- A field of a line: one space behind the colon is no part of the value.
field_value : Str → Str
unfolding after_prefix
field_value rest = elim (after_prefix (codes " ") rest) [ none ↦ rest | some value ↦ value ]

-- The text has the character NUL.
unfoldable pub has_nul : Str → Bool
has_nul [] = false
has_nul (c ∷ s) = c == 0 || has_nul s

-- An id with the character NUL is ignored.
pub read_field : Str → Str → Buffers → Buffers
unfolding str_eq has_nul
read_field name value b =
    if str_eq name (codes "event")
    then record b { event_buffer = value }
    else if str_eq name (codes "data")
    then record b { data_buffer = b.data_buffer ++ (value ++ (10 ∷ [])) }
    else if str_eq name (codes "id")
    then if has_nul value then b else record b { id_buffer = value }
    else b

-- An empty line ends an event, which is dropped if it has no data. A line that nothing ends is not
-- read.
read_lines : List Str → Buffers → List Event
unfolding read_field field_value cut drop_last
read_lines [] b = []
read_lines (line ∷ []) b = []
read_lines ([] ∷ next ∷ lines) b =
    let rest =
      read_lines (next ∷ lines)
        (record { event_buffer = []; data_buffer = []; id_buffer = b.id_buffer }) in
    if is_empty b.data_buffer
    then rest
    else record {
      event_type = b.event_buffer;
      data_of = drop_last b.data_buffer;
      last_id = b.id_buffer;
    }
      ∷ rest
read_lines ((x ∷ line) ∷ next ∷ lines) b =
    let (name, value) = cut b':' (x ∷ line) in
    read_lines (next ∷ lines) (read_field name (field_value value) b)

unfoldable pub read_stream : Str → Str → List Event
unfolding read_lines split
read_stream last_id text =
    read_lines (split 10 text) (record { event_buffer = []; data_buffer = []; id_buffer = last_id })
