-- ===== src/Middlewares/Logger.antt =====
-- middlewares/logger.go. The writer that notes the status is one of the response writer's
-- `recorders`; its Flush is the writer's own. Parameters: loggers, what Println does with one, the
-- text of a duration, and the clock, which is read off the memory.
pub mod Transparent
use amaro.Prelude.{
  ℕ, ◌-◌, Bool, true, false, ◌&&◌, leb, ltb, List, [], ◌∷◌, ◌++◌, Option, none, some, Str, codes,
  str_eq, length, get_elem?, if◌then◌else◌,
}
use amaro.Prelude.Decimal.{itoa}
use amaro.Errors.{Error}
use amaro.Http.{Writer, Recorder, record_calls}
use amaro.Http.Method
use amaro.Context.{
  Context, Outcome, returned, panicked, Act, Middleware, ◌>>=◌, ◌>>◌, pure, the_request,
}

abbrev ansi : Str → Str
ansi code = 27 ∷ code

abbrev green : Str
green = ansi (codes "[97;42m")

abbrev white : Str
white = ansi (codes "[90;47m")

abbrev yellow : Str
yellow = ansi (codes "[90;43m")

abbrev red : Str
red = ansi (codes "[97;41m")

abbrev blue : Str
blue = ansi (codes "[97;44m")

abbrev magenta : Str
magenta = ansi (codes "[97;45m")

abbrev cyan : Str
cyan = ansi (codes "[97;46m")

abbrev reset_color : Str
reset_color = ansi (codes "[0m")

unfoldable pub status_color : ℕ → Str
status_color code =
    if leb 200 code && ltb code 300
    then green
    else if leb 300 code && ltb code 400
    then white
    else if leb 400 code && ltb code 500
    then yellow
    else red

unfoldable pub method_color : Str → Str
unfolding str_eq
method_color method =
    if str_eq method Method.get
    then blue
    else if str_eq method Method.post
    then cyan
    else if str_eq method Method.put
    then yellow
    else if str_eq method Method.delete
    then red
    else if str_eq method Method.patch
    then green
    else if str_eq method Method.head
    then magenta
    else if str_eq method Method.options
    then white
    else reset_color

-- The verb %3d of a number that is not negative.
padded : ℕ → Str
unfolding itoa
padded n =
    let digits = itoa n in
    if ltb n 10 then codes "  " ++ digits else if ltb n 100 then codes " " ++ digits else digits

unfoldable pub log_line : ℕ → Str → Str → Str → Str
unfolding status_color method_color padded
log_line status method path duration =
    status_color status
    ++ (codes " "
        ++ (padded status
            ++ (codes " "
                ++ (reset_color
                    ++ (codes " "
                        ++ (method_color method
                            ++ (codes " "
                                ++ (method
                                    ++ (codes " "
                                        ++ (reset_color
                                            ++ (codes " "
                                                ++ (path ++ (codes " " ++ duration)))))))))))))

-- How a logger prints: of the duration and the status.
pub record LoggerConfig (L S : Type 0) : Type 0 where
  pub logger : L
  pub print_func : L → ℕ → ℕ → Act S (Unit {0})

pub data LoggerOption (L S : Type 0) : Type 0 where
  with_logger : L → LoggerOption L S
  with_logger_log_func : (L → ℕ → ℕ → Act S (Unit {0})) → LoggerOption L S

apply_logger_options :
    {L S : Type 0} → List (LoggerOption L S) → LoggerConfig L S → LoggerConfig L S
apply_logger_options [] cfg = cfg
apply_logger_options (with_logger l ∷ rest) cfg =
    apply_logger_options rest (record cfg { logger = l })
apply_logger_options (with_logger_log_func f ∷ rest) cfg =
    apply_logger_options rest (record cfg { print_func = f })

module _ {L S : Type 0} (default_logger : L) (println : L → Str → S → S) (show_duration : ℕ → Str)
    (now : S → ℕ) where
  print_line : L → ℕ → ℕ → Act S (Unit {0})
  unfolding the_request log_line
  print_line logger duration status = do
    r ← the_request
    λ c s.
        returned tt c (println logger (log_line status r.method r.path (show_duration duration)) s)

  unfoldable pub logger_config : List (LoggerOption L S) → LoggerConfig L S
  unfolding apply_logger_options print_line
  logger_config options =
      apply_logger_options options (record { logger = default_logger; print_func = print_line })

  -- What the recorder has noted that was put behind the given number of others. Without a writer no
  -- call has succeeded, and the status is the default.
  abbrev pub status_of : ℕ → Context → ℕ
  status_of before c = elim c.writer [
    | none ↦ 200
    | some w ↦ elim (get_elem? w.recorders before) [
      | none ↦ 200
      | some recorder ↦ recorder.status_code
    ]
  ]

  unfoldable pub logger : List (LoggerOption L S) → Middleware S
  unfolding logger_config record_calls get_elem?
  logger options next c s =
      let cfg = logger_config options in
      let before : ℕ = elim c.writer [ none ↦ 0 | some w ↦ length w.recorders ] in
      let recording = record c {
        writer = elim c.writer [ none ↦ none | some w ↦ some (record_calls w) ];
      } in
      (do
        err ← next
        (λ c' s'. cfg.print_func cfg.logger (now s' - now s) (status_of before c') c' s')
        pure err)
        recording s
