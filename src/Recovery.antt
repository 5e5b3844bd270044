-- ===== src/Recovery.antt =====
-- recovery.go: the middleware that turns a panic into a response. The parameter `render` is what
-- renderDebugPage makes of the panic's value and the stack, and package html/template a parameter of
-- that.
use amaro.Prelude.{Bool, false, Option, none, some, List, [], ◌∷◌, Str, codes, if◌then◌else◌}
use amaro.Errors.{Any, Error, nil, internal_server_error}
use amaro.Context.{returned, panicked, Act, Middleware, ◌>>=◌, pure, write_string, html}

pub record RecoveryConfig : Type 0 where
  pub html_debug : Bool

-- A RecoveryOption; the package has WithHTMLDebug and no other.
pub data RecoveryOption : Type 0 where
  with_html_debug : Bool → RecoveryOption

apply_recovery_options : List RecoveryOption → RecoveryConfig → RecoveryConfig
apply_recovery_options [] cfg = cfg
apply_recovery_options (with_html_debug enabled ∷ rest) cfg =
    apply_recovery_options rest (record cfg { html_debug = enabled })

unfoldable pub recovery_config : List RecoveryOption → RecoveryConfig
unfolding apply_recovery_options
recovery_config options = apply_recovery_options options (record { html_debug = false })

-- renderDebugPage. A template that cannot be parsed is `none`, and one that cannot be executed on the
-- value and the stack gives `none`.
unfoldable pub render_debug_page : Option (Any → Str → Option Str) → Str → Any → Str
render_debug_page parsed stack err = elim parsed [
  | none ↦ codes "Internal Server Error (Failed to render debug page)"
  | some execute ↦ elim (execute err stack) [
    | none ↦ codes "Internal Server Error (Failed to execute debug template)"
    | some page ↦ page
  ]
]

module _ {S : Type 0} (render : Any → Str) where
  -- The deferred function, after a panic; the error of the handler is then nil.
  unfoldable pub recover_with : RecoveryConfig → Any → Act S Error
  unfolding write_string html
  recover_with cfg v = do
    ignored ←
        if cfg.html_debug
        then html internal_server_error (render v)
        else write_string internal_server_error (codes "Internal Server Error")
    pure nil

  unfoldable pub recovery : List RecoveryOption → Middleware S
  unfolding recovery_config recover_with
  recovery options next c s = elim (next c s) [
    | returned e c' s' ↦ returned e c' s'
    | panicked v c' s' ↦ recover_with (recovery_config options) v c' s'
  ]
