-- ===== src/Streaming.antt =====
-- addons/streaming/streaming.go. Parameter: whether a writer is a http.Flusher. The context of the
-- callback is a copy, of which only the writer is shared with the request's. A nil context is not
-- modelled, and a text comes as fmt.Sprintf has made it.
pub mod Events
use amaro.Prelude.{
  ℕ, Bool, true, false, List, [], ◌∷◌, ◌++◌, Option, none, some, Str, codes, is_empty,
  if◌then◌else◌,
}
use amaro.Prelude.Int.{ℤ}
use amaro.Strconv.{format_int}
use amaro.Errors.{Error, nil, plain}
use amaro.Http.{Writer, flush, write}
use amaro.Context.{
  Context, Outcome, returned, panicked, Act, ◌>>=◌, ◌>>◌, pure, panic, nil_dereference, set_header,
  on_writer,
}

pub record SseMessage : Type 0 where
  pub data_of : Str
  pub event : Option Str
  pub id : Option Str
  pub retry : Option ℤ

retry_text : Option ℤ → Option Str
unfolding format_int
retry_text none = none
retry_text (some r) = some (format_int r)

module _ {S : Type 0} where
  -- StreamContext.Write
  unfoldable pub stream_write : Str → Act S (Unit {0})
  unfolding on_writer flush write
  stream_write bytes = do on_writer flush; on_writer (write bytes)

  unfoldable pub write_ln : Str → Act S (Unit {0})
  unfolding stream_write
  write_ln line = stream_write (line ++ (10 ∷ []))

  write_field : Str → Option Str → Act S (Unit {0})
  unfolding stream_write
  write_field name none = pure tt
  write_field name (some value) = stream_write (name ++ (codes ": " ++ (value ++ (10 ∷ []))))

  -- (s *StreamSSEContext).Send
  unfoldable pub send_message : SseMessage → Act S Error
  unfolding write_field stream_write retry_text
  send_message m =
      if is_empty m.data_of then pure (plain (codes "data field cannot be empty")) else (do
        write_field (codes "event") m.event
        write_field (codes "id") m.id
        write_field (codes "retry") (retry_text m.retry)
        stream_write (codes "data: " ++ (m.data_of ++ (10 ∷ 10 ∷ [])))
        pure nil)

  -- The call on a copy of the context.
  on_copy : Act S (Unit {0}) → Act S (Unit {0})
  on_copy call c s = elim (call c s) [
    | returned r c' s' ↦ returned r (record c { writer = c'.writer }) s'
    | panicked v c' s' ↦ panicked v (record c { writer = c'.writer }) s'
  ]

  module _ (is_flusher : Writer → Bool) where
    if_flusher : Act S (Unit {0}) → Act S Error
    unfolding on_copy
    if_flusher call c s = elim c.writer [
      | none ↦ panicked nil_dereference c s
      | some w ↦
          (if is_flusher w
              then on_copy call >> pure nil
              else pure (plain (codes "streaming not supported by the response writer")))
            c s
    ]

    unfoldable pub stream : Act S (Unit {0}) → Act S Error
    unfolding if_flusher set_header
    stream call = do
      set_header (codes "Cache-Control") (codes "no-cache")
      set_header (codes "Connection") (codes "keep-alive")
      if_flusher call

    unfoldable pub stream_text : Act S (Unit {0}) → Act S Error
    unfolding if_flusher set_header
    stream_text call = do
      set_header (codes "Content-Type") (codes "text/plain")
      set_header (codes "Cache-Control") (codes "no-cache")
      set_header (codes "Connection") (codes "keep-alive")
      set_header (codes "Transfer-Encoding") (codes "chunked")
      set_header (codes "X-Content-Type-Options") (codes "nosniff")
      if_flusher call

    unfoldable pub stream_sse : Act S (Unit {0}) → Act S Error
    unfolding if_flusher set_header
    stream_sse call = do
      set_header (codes "Content-Type") (codes "text/event-stream")
      set_header (codes "Cache-Control") (codes "no-cache")
      set_header (codes "Connection") (codes "keep-alive")
      set_header (codes "Transfer-Encoding") (codes "chunked")
      if_flusher call
