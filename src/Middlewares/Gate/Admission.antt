-- ===== src/Middlewares/Gate/Admission.antt =====
-- Whom a validator and an error handler let through.
use amaro.Prelude.{refl, Bool, true, false, Str, if◌then◌else◌}
use amaro.Errors.{Error, nil, plain, http}
use amaro.Context.{Context, Outcome, returned, panicked, Handler, Act}
use amaro.Middlewares.Gate.{Decision, decided, unless_skipped, error_verdict, Admits}

module _ {S : Type 0} (message : Str) (on_error : Error → Act S Error) (next : Handler S) where
  pub error_verdict-Admits :
      (o : Outcome S (Bool × Error))
      → Admits on_error (decided message o) next (elim o [
        | returned a c s ↦ error_verdict message on_error next a c s
        | panicked v c s ↦ panicked v c s
      ])
  unfolding error_verdict
  error_verdict-Admits (panicked v c s) = refl
  error_verdict-Admits (returned (true, nil) c s) = refl
  error_verdict-Admits (returned (false, nil) c s) = ((λ e. cc e), refl)
  error_verdict-Admits (returned (true, plain m) c s) = ((λ e. cc e), refl)
  error_verdict-Admits (returned (false, plain m) c s) = ((λ e. cc e), refl)
  error_verdict-Admits (returned (true, http k m i) c s) = ((λ e. cc e), refl)
  error_verdict-Admits (returned (false, http k m i) c s) = ((λ e. cc e), refl)

module _ {S : Type 0} (on_error : Error → Act S Error) (next check : Handler S)
    (decide : Context → S → Decision S)
    (checked : (c : Context) (s : S) → Admits on_error (decide c s) next (check c s)) where
  -- A skipper in front of a check.
  pub skipped-Admits :
      (o : Outcome S Bool)
      → Admits on_error (unless_skipped o decide) next (elim o [
        | returned skipped c s ↦ (if skipped then next else check) c s
        | panicked v c s ↦ panicked v c s
      ])
  skipped-Admits (panicked v c s) = refl
  skipped-Admits (returned true c s) = refl
  skipped-Admits (returned false c s) = checked c s
