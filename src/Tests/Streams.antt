-- ===== src/Tests/Streams.antt =====
-- Two messages of a stream.
use amaro.Prelude.{
  ℕ, ◌≡◌, refl, subst, Bool, true, false, [], ◌∷◌, ◌++◌, none, some, Str, codes, arith,
}
use amaro.Prelude.Int.{pos}
use amaro.Errors.{nil}
use amaro.Http.{Writer}
use amaro.Context.{returned, pure, ◌>>=◌}
use amaro.Streaming.{SseMessage, stream_sse}
use amaro.Streaming.Events.{has_nul, read_stream}
use amaro.Streaming.Events.Sent.{IsLine, IsSendable, send_all, texts, message_text}
use amaro.Streaming.Events.Received.{events_of, stream_sse-received}
use amaro.Tests.{idle}

abbrev flushes : Writer → Bool
flushes w = true

abbrev tick : SseMessage
tick = record {
  data_of = codes "1";
  event = some (codes "tick");
  id = some (codes "7");
  retry = some (pos 9);
}

abbrev bare : SseMessage
bare = record { data_of = codes "a: b"; event = none; id = none; retry = none }

IsLine-some : (s t : Str) → IsLine s → some s ≡ some t → IsLine t
IsLine-some s t h e = let same : s ≡ t = cc in subst IsLine same h

tick-IsSendable : IsSendable tick
unfolding has_nul
tick-IsSendable = record {
  some_data = refl;
  data_line = ground arith;
  event_line = λ e h. IsLine-some (codes "tick") e (ground arith) h;
  id_line = λ i h. IsLine-some (codes "7") i (ground arith) h;
  id_no_nul = λ i h. let same : codes "7" ≡ i = cc in subst (λ s. has_nul s ≡ false) same refl;
}

bare-IsSendable : IsSendable bare
bare-IsSendable = record {
  some_data = refl;
  data_line = ground arith;
  event_line = λ e h. cc;
  id_line = λ i h. cc;
  id_no_nul = λ i h. cc;
}

stream_sse-received_example :
    (w' : Writer) × (text : Str) × (stream_sse {S = ℕ} flushes
        (send_all (tick ∷ bare ∷ []) >>= λ _. pure tt)
        idle
        5
      ≡ returned nil (record idle { writer = some w' }) 5)
    × (w'.body ≡ [] ++ text)
    × (read_stream [] text ≡ events_of [] (tick ∷ bare ∷ []))
stream_sse-received_example =
    stream_sse-received flushes (tick ∷ bare ∷ []) [] idle 5 (λ w. refl)
      (tick-IsSendable, (bare-IsSendable, tt)) refl

reads :
    read_stream [] (texts (tick ∷ bare ∷ []))
    ≡ record { event_type = codes "tick"; data_of = codes "1"; last_id = codes "7" }
      ∷ record { event_type = []; data_of = codes "a: b"; last_id = codes "7" }
      ∷ []
unfolding read_stream texts message_text
reads = refl
