-- ===== src/Context/Writing.antt =====
-- Actions that do nothing but write to the response.
use amaro.Prelude.{◌≡◌, refl, ap, sym, ◌∙◌, some, Str, [], ◌++◌, append-nil, append_assoc, arith}
use amaro.Http.{Writer, on_header, header_set}
use amaro.Context.{Context, Act, returned, ◌>>=◌, ◌>>◌, pure, on_writer, set_header}

module _ {S : Type 0} where
  -- On a context with a writer, the action returns the value, and adds the text to the body.
  abbrev pub Writes : {A : Type 0} → Act S A → A → Str → Type 0
  Writes act a text =
      (c : Context) (s : S) (w : Writer)
      → c.writer ≡ some w
      → (w' : Writer) × (act c s ≡ returned a (record c { writer = some w' }) s)
        × (w'.body ≡ w.body ++ text)

  pub Writes-pure : {A : Type 0} (a : A) → Writes (pure a) a []
  Writes-pure a c s w h =
      (w, ap (λ x. returned a (record c { writer = x }) s) h, sym (append-nil w.body))

  pub Writes-bind :
      {A B : Type 0} (f : Act S A) (g : A → Act S B) (a : A) (b : B) (t u : Str)
      → Writes f a t
      → Writes (g a) b u
      → Writes (f >>= g) b (t ++ u)
  Writes-bind f g a b t u hf hg c s w h =
      let (w1, e1, k1) = hf c s w h in
      let (w2, e2, k2) = hg (record c { writer = some w1 }) s w1 refl in
      (w2, ground (arith, e1, e2), k2 ∙ ap (λ x. x ++ u) k1 ∙ append_assoc w.body t u)

  pub Writes-then :
      {B : Type 0} (f : Act S (Unit {0})) (k : Act S B) (b : B) (t u : Str)
      → Writes f tt t
      → Writes k b u
      → Writes (f >> k) b (t ++ u)
  Writes-then f k b t u hf hk = Writes-bind f (λ _. k) tt b t u hf hk

  pub Writes-on_writer :
      (f : Writer → Writer) (t : Str)
      → ((w : Writer) → (f w).body ≡ w.body ++ t)
      → Writes (on_writer f) tt t
  unfolding on_writer
  Writes-on_writer f t k c s w h = (f w, ground (arith, h), k w)

  pub Writes-set_header : (key value : Str) → Writes (set_header key value) tt []
  unfolding set_header on_header
  Writes-set_header key value =
      Writes-on_writer (on_header (header_set key value)) [] (λ w. sym (append-nil w.body))

  pub Writes-header_then :
      {B : Type 0} (key value : Str) (k : Act S B) (b : B) (t : Str)
      → Writes k b t
      → Writes (set_header key value >> k) b t
  Writes-header_then key value k b t h =
      Writes-then (set_header key value) k b [] t (Writes-set_header key value) h
