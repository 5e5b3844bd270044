-- ===== src/Streaming/Events/Sent.antt =====
-- The text that is sent for messages.
use amaro.Prelude.{
  ◌≡◌, ◌≢◌, refl, ap, sym, subst, ◌∙◌, Bool, true, false, List, [], ◌∷◌, ◌++◌, append-nil, Option,
  none, some, Str, codes, is_empty, All, arith, if◌then◌else◌,
}
use amaro.Errors.{Error, nil, is_nil}
use amaro.Http.{Writer, flush, write}
use amaro.Http.Sending.{write-body, flush-body}
use amaro.Context.{Act, ◌>>=◌, ◌>>◌, pure, on_writer, set_header}
use amaro.Context.Writing.{
  Writes, Writes-pure, Writes-bind, Writes-then, Writes-on_writer, Writes-header_then,
}
use amaro.Streaming.{
  SseMessage, stream_write, retry_text, write_field, send_message, on_copy, if_flusher, stream_sse,
}
use amaro.Streaming.Events.{has_nul}

abbrev pub IsLine : Str → Type 0
IsLine = All (λ c. (c ≢ 10) × (c ≢ 13))

-- There is data, nothing that would end a line, and no NUL in the id.
pub record IsSendable (m : SseMessage) : Type 0 where
  pub some_data : is_empty m.data_of ≡ false
  pub data_line : IsLine m.data_of
  pub event_line : (e : Str) → m.event ≡ some e → IsLine e
  pub id_line : (i : Str) → m.id ≡ some i → IsLine i
  pub id_no_nul : (i : Str) → m.id ≡ some i → has_nul i ≡ false

unfoldable pub field_text : Str → Option Str → Str
field_text name none = []
field_text name (some value) = name ++ (codes ": " ++ (value ++ (10 ∷ [])))

unfoldable pub message_text : SseMessage → Str
unfolding field_text retry_text
message_text m =
    field_text (codes "event") m.event
    ++ (field_text (codes "id") m.id
        ++ (field_text (codes "retry") (retry_text m.retry)
            ++ (codes "data: " ++ (m.data_of ++ (10 ∷ 10 ∷ [])))))

unfoldable pub texts : List SseMessage → Str
texts [] = []
texts (m ∷ ms) = message_text m ++ texts ms

module _ {S : Type 0} where
  stream_write-Writes : (bytes : Str) → Writes (stream_write {S = S} bytes) tt bytes
  unfolding stream_write
  stream_write-Writes bytes =
      Writes-bind (on_writer flush) (λ _. on_writer (write bytes)) tt tt [] bytes
        (Writes-on_writer flush [] (λ w. flush-body w ∙ sym (append-nil w.body)))
        (Writes-on_writer (write bytes) bytes (write-body bytes))

  write_field-Writes :
      (name : Str) (value : Option Str)
      → Writes (write_field {S = S} name value) tt (field_text name value)
  unfolding write_field field_text
  write_field-Writes name none = Writes-pure tt
  write_field-Writes name (some value) = stream_write-Writes _

  send_message-Writes :
      (m : SseMessage)
      → is_empty m.data_of ≡ false
      → Writes (send_message {S = S} m) nil (message_text m)
  unfolding send_message message_text field_text
  send_message-Writes m h =
      let last = codes "data: " ++ (m.data_of ++ (10 ∷ 10 ∷ [])) in
      let retry = field_text (codes "retry") (retry_text m.retry) in
      let id = field_text (codes "id") m.id in
      let k3 = stream_write last >> pure nil in
      let k2 = write_field (codes "retry") (retry_text m.retry) >> k3 in
      let k1 = write_field (codes "id") m.id >> k2 in
      let k0 = write_field (codes "event") m.event >> k1 in
      let w3 : Writes k3 nil last =
        subst (λ t. Writes k3 nil t) (append-nil last)
          (Writes-then (stream_write last) (pure nil) nil last [] (stream_write-Writes last)
            (Writes-pure nil)) in
      let w2 =
        Writes-then _ k3 nil retry last (write_field-Writes (codes "retry") (retry_text m.retry))
          w3 in
      let w1 = Writes-then _ k2 nil id (retry ++ last) (write_field-Writes (codes "id") m.id) w2 in
      let w0 =
        Writes-then _ k1 nil (field_text (codes "event") m.event) (id ++ (retry ++ last))
          (write_field-Writes (codes "event") m.event) w1 in
      let run : send_message {S = S} m ≡ k0 = rw (send_message, h) refl in
      subst (λ act. Writes act nil (message_text m)) (sym run) w0

  -- The messages in order, up to the first error.
  unfoldable pub send_all : List SseMessage → Act S Error
  unfolding send_message
  send_all [] = pure nil
  send_all (m ∷ ms) = do err ← send_message m; if is_nil err then send_all ms else pure err

  pub send_all-Writes :
      (ms : List SseMessage) → All IsSendable ms → Writes (send_all ms) nil (texts ms)
  unfolding send_all texts
  send_all-Writes [] _ = Writes-pure nil
  send_all-Writes (m ∷ ms) (h, hs) =
      Writes-bind (send_message m) (λ err. if is_nil err then send_all ms else pure err) nil nil
        (message_text m) (texts ms) (send_message-Writes m h.some_data) (send_all-Writes ms hs)

  on_copy-Writes :
      (call : Act S (Unit {0})) (t : Str) → Writes call tt t → Writes (on_copy call) tt t
  unfolding on_copy
  on_copy-Writes call t h c s w k = let (w', e, l) = h c s w k in (w', ground (arith, e), l)

  if_flusher-Writes :
      (is_flusher : Writer → Bool) (call : Act S (Unit {0})) (t : Str)
      → ((w : Writer) → is_flusher w ≡ true)
      → Writes call tt t
      → Writes (if_flusher is_flusher call) nil t
  unfolding if_flusher
  if_flusher-Writes is_flusher call t all h c s w k =
      let (w', e, l) =
        Writes-then (on_copy call) (pure nil) nil t [] (on_copy-Writes call t h) (Writes-pure nil) c
          s w k in
      (w', ground (arith, e, k, all w), l ∙ ap (λ x. w.body ++ x) (append-nil t))

  pub stream_sse-Writes :
      (is_flusher : Writer → Bool) (call : Act S (Unit {0})) (t : Str)
      → ((w : Writer) → is_flusher w ≡ true)
      → Writes call tt t
      → Writes (stream_sse is_flusher call) nil t
  unfolding stream_sse
  stream_sse-Writes is_flusher call t all h =
      let k4 = if_flusher is_flusher call in
      let k3 = set_header (codes "Transfer-Encoding") (codes "chunked") >> k4 in
      let k2 = set_header (codes "Connection") (codes "keep-alive") >> k3 in
      let k1 = set_header (codes "Cache-Control") (codes "no-cache") >> k2 in
      Writes-header_then (codes "Content-Type") (codes "text/event-stream") k1 nil t (
        Writes-header_then (codes "Cache-Control") (codes "no-cache") k2 nil t (
          Writes-header_then (codes "Connection") (codes "keep-alive") k3 nil t (
            Writes-header_then (codes "Transfer-Encoding") (codes "chunked") k4 nil t
              (if_flusher-Writes is_flusher call t all h))))
