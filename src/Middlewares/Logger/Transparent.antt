-- ===== src/Middlewares/Logger/Transparent.antt =====
-- The logger leaves responses alone.
use amaro.Prelude.{◌≡◌, ℕ, ◌-◌, [], some, Str, length, get_elem?, arith}
use amaro.Errors.{Error}
use amaro.Http.{Writer, Request, Recorder, record_calls}
use amaro.Context.{Context, Act, returned, the_request}
use amaro.Middlewares.Logger.{log_line, apply_logger_options, logger_config, print_line, logger}

module _ {L S : Type 0} (default_logger : L) (println : L → Str → S → S) (show_duration : ℕ → Str)
    (now : S → ℕ) where
  -- A handler that returns under the logger, on a context with a writer, and that leaves a request and
  -- its writer there: its error, context and memory are what the logger returns, but for one line that
  -- is printed, with the last status that went through the recorder.
  pub logger-transparent :
      (next : Act S Error) (c c' : Context) (s s' : S) (err : Error) {w w' : Writer}
      {recorder : Recorder} {r : Request}
      → c.writer ≡ some w
      → next (record c { writer = some (record_calls w) }) s ≡ returned err c' s'
      → c'.writer ≡ some w'
      → get_elem? w'.recorders (length w.recorders) ≡ some recorder
      → c'.request ≡ some r
      → logger default_logger println show_duration now [] next c s
        ≡ returned err c' (
            println default_logger
              (log_line recorder.status_code r.method r.path (show_duration (now s' - now s)))
              s')
  unfolding logger logger_config apply_logger_options print_line the_request
  logger-transparent next c c' s s' err h handled k l m = ground (arith, h, handled, k, l, m)
