-- ===== src/Streaming/Events/Received.antt =====
-- What a client reads of the messages that were sent.
use amaro.Prelude.{
  ℕ, suc, ◌≡◌, ◌≢◌, refl, ap, subst, ◌∙◌, Bool, true, false, List, [], ◌∷◌, ◌++◌, append_assoc,
  append-nil, Option, none, some, Str, codes, str_eq, is_empty, All, arith,
}
use amaro.Prelude.Int.{ℤ, pos, negsuc}
use amaro.Prelude.Decimal.{itoa-All_ne}
use amaro.Strings.{drop_last}
use amaro.Strconv.{format_int}
use amaro.Errors.{nil}
use amaro.Http.{Writer}
use amaro.Context.{Context, returned, ◌>>=◌, pure}
use amaro.Context.Writing.{Writes-pure, Writes-bind}
use amaro.Streaming.{SseMessage, retry_text, stream_sse}
use amaro.Streaming.Events.{Event, Buffers, has_nul, read_field, read_stream}
use amaro.Streaming.Events.Lines.{read_text, read_text-field, read_text-end}
use amaro.Streaming.Events.Sent.{
  IsLine, IsSendable, field_text, message_text, texts, send_all, send_all-Writes, stream_sse-Writes,
}

abbrev pub or_empty : Option Str → Str
or_empty none = []
or_empty (some s) = s

-- An id stays until there is another one.
abbrev pub id_after : Str → SseMessage → Str
id_after id m = elim m.id [ none ↦ id | some i ↦ i ]

abbrev pub event_of : Str → SseMessage → Event
event_of id m = record {
  event_type = or_empty m.event;
  data_of = m.data_of;
  last_id = id_after id m;
}

-- The events that the messages are for a client that has the given id.
unfoldable pub events_of : Str → List SseMessage → List Event
events_of id [] = []
events_of id (m ∷ ms) = event_of id m ∷ events_of (id_after id m) ms

abbrev started : Str → Buffers
started id = record { event_buffer = []; data_buffer = []; id_buffer = id }

on_field : Str → Option Str → Buffers → Buffers
on_field name none b = b
on_field name (some value) b = read_field name value b

IsLine-All_ne : (s : Str) → IsLine s → All (λ c. c ≢ 10) s
IsLine-All_ne [] h = tt
IsLine-All_ne (c ∷ s) ((ne, _), h) = (ne, IsLine-All_ne s h)

format_int-All_ne : (z : ℤ) → All (λ c. c ≢ 10) (format_int z)
unfolding format_int
format_int-All_ne (pos n) = itoa-All_ne n
format_int-All_ne (negsuc n) = (omega arith, itoa-All_ne (suc n))

read_text-field_text :
    (x : ℕ) (name : Str) (value : Option Str) (rest : Str) (b : Buffers)
    → All (λ c. c ≢ b':') (x ∷ name)
    → All (λ c. c ≢ 10) (x ∷ name)
    → ((v : Str) → value ≡ some v → All (λ c. c ≢ 10) v)
    → read_text (field_text (x ∷ name) value ++ rest) b
      ≡ read_text rest (on_field (x ∷ name) value b)
unfolding field_text on_field
read_text-field_text x name none rest b h k l = refl
read_text-field_text x name (some v) rest b h k l = read_text-field x name v rest b h k (l v refl)

retry-All_ne : (retry : Option ℤ) (v : Str) → retry_text retry ≡ some v → All (λ c. c ≢ 10) v
unfolding retry_text
retry-All_ne none v h = cc
retry-All_ne (some z) v h =
    let e : format_int z ≡ v = cc in subst (All (λ c. c ≢ 10)) e (format_int-All_ne z)

-- The buffers before the empty line.
filled : Str → SseMessage → Buffers
unfolding on_field
filled id m = read_field (codes "data") m.data_of (
    on_field (codes "retry") (retry_text m.retry)
      (on_field (codes "id") m.id (on_field (codes "event") m.event (started id))))

on_field-retry : (value : Option Str) (b : Buffers) → on_field (codes "retry") value b ≡ b
unfolding on_field read_field str_eq
on_field-retry none b = refl
on_field-retry (some v) b = refl

on_field-event :
    (value : Option Str) (id : Str)
    → on_field (codes "event") value (started id)
      ≡ record { event_buffer = or_empty value; data_buffer = []; id_buffer = id }
unfolding on_field read_field str_eq
on_field-event none id = refl
on_field-event (some v) id = refl

on_field-id :
    (value : Option Str) (event id : Str)
    → ((i : Str) → value ≡ some i → has_nul i ≡ false)
    → on_field
        (codes "id")
        value
        (record { event_buffer = event; data_buffer = []; id_buffer = id })
      ≡ record {
        event_buffer = event;
        data_buffer = [];
        id_buffer = elim value [ none ↦ id | some i ↦ i ];
      }
unfolding on_field read_field str_eq
on_field-id none event id h = refl
on_field-id (some v) event id h = rw (h v refl) refl

filled-buffers :
    (id : Str) (m : SseMessage)
    → ((i : Str) → m.id ≡ some i → has_nul i ≡ false)
    → filled id m ≡ record {
      event_buffer = or_empty m.event;
      data_buffer = m.data_of ++ (10 ∷ []);
      id_buffer = id_after id m;
    }
unfolding filled read_field str_eq
filled-buffers id m h = ap (read_field (codes "data") m.data_of) (
    on_field-retry (retry_text m.retry) _
    ∙ ap (on_field (codes "id") m.id) (on_field-event m.event id)
    ∙ on_field-id m.id (or_empty m.event) id h)

drop_last-snoc : (s : Str) (c : ℕ) → drop_last (s ++ (c ∷ [])) ≡ s
unfolding drop_last
drop_last-snoc [] c = refl
drop_last-snoc (d ∷ []) c = refl
drop_last-snoc (d ∷ e ∷ s) c = ap (λ x. d ∷ x) (drop_last-snoc (e ∷ s) c)

snoc-not_empty : (s : Str) (c : ℕ) → is_empty (s ++ (c ∷ [])) ≡ false
snoc-not_empty [] c = refl
snoc-not_empty (d ∷ s) c = refl

read_text-message :
    (id : Str) (m : SseMessage) (rest : Str)
    → IsSendable m
    → read_text (message_text m ++ rest) (started id)
      ≡ event_of id m ∷ read_text rest (started (id_after id m))
unfolding message_text filled
read_text-message id m rest h =
    let event = field_text (codes "event") m.event in
    let id_text = field_text (codes "id") m.id in
    let retry = field_text (codes "retry") (retry_text m.retry) in
    let data_line = codes "data" ++ (codes ": " ++ (m.data_of ++ (10 ∷ []))) in
    let b1 = on_field (codes "event") m.event (started id) in
    let b2 = on_field (codes "id") m.id b1 in
    let b3 = on_field (codes "retry") (retry_text m.retry) b2 in
    let whole : message_text m ++ rest
        ≡ event ++ (id_text ++ (retry ++ (data_line ++ (10 ∷ rest)))) =
      simp append_assoc in
    let data_there : is_empty (filled id m).data_buffer ≡ false =
      ap (λ (b : Buffers). is_empty b.data_buffer) (filled-buffers id m h.id_no_nul)
      ∙ snoc-not_empty m.data_of 10 in
    ap (λ t. read_text t (started id)) whole
    ∙ read_text-field_text b'e' (codes "vent") m.event _ (started id) (ground arith) (ground arith)
        (λ v e. IsLine-All_ne v (h.event_line v e))
    ∙ read_text-field_text b'i' (codes "d") m.id _ b1 (ground arith) (ground arith)
        (λ v e. IsLine-All_ne v (h.id_line v e))
    ∙ read_text-field_text b'r' (codes "etry") (retry_text m.retry) _ b2 (ground arith)
        (ground arith) (retry-All_ne m.retry)
    ∙ read_text-field b'd' (codes "ata") m.data_of (10 ∷ rest) b3 (ground arith) (ground arith)
        (IsLine-All_ne m.data_of h.data_line)
    ∙ read_text-end rest (filled id m) data_there
    ∙ ap
        (λ (b : Buffers).
          record {
            event_type = b.event_buffer;
            data_of = drop_last b.data_buffer;
            last_id = b.id_buffer;
          }
          ∷ read_text rest (started b.id_buffer))
        (filled-buffers id m h.id_no_nul)
    ∙ ap
        (λ d.
          record { event_type = or_empty m.event; data_of = d; last_id = id_after id m }
          ∷ read_text rest (started (id_after id m)))
        (drop_last-snoc m.data_of 10)

read_stream-texts :
    (id : Str) (ms : List SseMessage)
    → All IsSendable ms
    → read_stream id (texts ms) ≡ events_of id ms
unfolding read_stream read_text texts events_of
read_stream-texts id [] _ = refl
read_stream-texts id (m ∷ ms) (h, hs) =
    read_text-message id m (texts ms) h
    ∙ ap (λ events. event_of id m ∷ events) (read_stream-texts (id_after id m) ms hs)

module _ {S : Type 0} where
  -- Where the writers are flushers, no message has empty data, none of the data, event names and ids
  -- has a line break, no id has the character NUL, and the context has a writer: StreamSSE, with a
  -- callback that sends these messages in order, returns nil and only adds to the body, and a client
  -- that reads what was added gets exactly these messages as its events, in order.
  pub stream_sse-received :
      (is_flusher : Writer → Bool) (ms : List SseMessage) (last_id : Str) (c : Context) (s : S)
      {w : Writer}
      → ((v : Writer) → is_flusher v ≡ true)
      → All IsSendable ms
      → c.writer ≡ some w
      → (w' : Writer) × (text : Str) × (stream_sse is_flusher (send_all ms >>= λ _. pure tt) c s
          ≡ returned nil (record c { writer = some w' }) s)
        × (w'.body ≡ w.body ++ text)
        × (read_stream last_id text ≡ events_of last_id ms)
  stream_sse-received is_flusher ms last_id c s {w} all h k =
      let sent =
        Writes-bind (send_all ms) (λ _. pure tt) nil tt (texts ms) [] (send_all-Writes ms h)
          (Writes-pure tt) in
      let (w', run, body) =
        stream_sse-Writes is_flusher (send_all ms >>= λ _. pure tt) (texts ms ++ []) all sent c s w
          k in
      (
        w',
        texts ms,
        run,
        body ∙ ap (λ t. w.body ++ t) (append-nil (texts ms)),
        read_stream-texts last_id ms h,
      )
