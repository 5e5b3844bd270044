-- ===== src/Middlewares/Compress.antt =====
-- middlewares/compress.go: Compress and its gzipResponseWriter. Parameter: package compress/gzip, as a
-- state with what it hands on to the writer behind it. A handler is the sequence of its calls of the
-- response writer, which is a Flusher; a handler that panics is not modelled.
pub mod Decoded
pub mod Encoded
use amaro.Prelude.{Bool, true, List, [], ◌∷◌, ◌++◌, Str, codes, is_empty, if◌then◌else◌, ℕ}
use amaro.Http.{Header, Writer, header_set, header_del, on_header, write_header, write, flush}
use amaro.Strings.{contains}

-- gzip.Writer: NewWriter, Write, Flush and Close, each with the bytes that it hands on.
pub record Gzip (Z : Type 0) : Type 0 where
  pub new_state : Z
  pub compress_bytes : Str → Z → Str × Z
  pub flush_bytes : Z → Str × Z
  pub close_bytes : Z → Str

-- A handler's call of the response writer, or its change of the header map.
pub data Call : Type 0 where
  change_header : (Header → Header) → Call
  set_status : ℕ → Call
  put_bytes : Str → Call
  flush_all : Call

-- The calls on the response writer as it is.
unfoldable pub call_directly : Call → Writer → Writer
unfolding on_header write_header write flush
call_directly (change_header f) w = on_header f w
call_directly (set_status code) w = write_header code w
call_directly (put_bytes bytes) w = write bytes w
call_directly flush_all w = flush w

unfoldable pub run_directly : List Call → Writer → Writer
unfolding call_directly
run_directly [] w = w
run_directly (call ∷ calls) w = run_directly calls (call_directly call w)

-- What gzip hands on is written, if it is anything.
unfoldable pub hand_on : Str → Writer → Writer
unfolding write
hand_on bytes w = if is_empty bytes then w else write bytes w

module _ {Z : Type 0} (gzip : Gzip Z) where
  -- The methods of gzipResponseWriter.
  unfoldable pub call_compressed : Call → Z × Writer → Z × Writer
  unfolding on_header header_del write_header flush hand_on
  call_compressed (change_header f) (z, w) = (z, on_header f w)
  call_compressed (set_status code) (z, w) =
      (z, write_header code (on_header (header_del (codes "Content-Length")) w))
  call_compressed (put_bytes bytes) (z, w) =
      let (out, z') = gzip.compress_bytes bytes z in (z', hand_on out w)
  call_compressed flush_all (z, w) =
      let (out, z') = gzip.flush_bytes z in (z', flush (hand_on out w))

  unfoldable pub run_compressed : List Call → Z × Writer → Z × Writer
  unfolding call_compressed
  run_compressed [] state = state
  run_compressed (call ∷ calls) state = run_compressed calls (call_compressed call state)

  -- gz.Close, which is deferred
  unfoldable pub close_compressed : Z × Writer → Writer
  unfolding hand_on
  close_compressed (z, w) = hand_on (gzip.close_bytes z) w

  -- Compress on a request with the Accept-Encoding.
  unfoldable pub compress : Str → List Call → Writer → Writer
  unfolding contains on_header header_set run_directly run_compressed close_compressed
  compress accept_encoding calls w =
      if contains (codes "gzip") accept_encoding
      then close_compressed (
          run_compressed calls (
            gzip.new_state,
            on_header (header_set (codes "Vary") (codes "Accept-Encoding"))
                (on_header (header_set (codes "Content-Encoding") (codes "gzip")) w),
          ))
      else run_directly calls w
