-- ===== src/Middlewares/Jwt/Tokens/Authentic.antt =====
-- Which tokens the JWT middleware accepts.
use amaro.Prelude.{
  ℕ, ◌≡◌, ◌≢◌, refl, ap, subst, ◌∙◌, ◌⊎◌, inl, inr, Bool, true, false, some, Str, codes, Bool-cases,
  if◌then◌else◌, arith,
}
use amaro.Prelude.Int.{ℤ, pos, ltb_ℤ, leb_ℤ}
use amaro.Errors.{Error, nil, plain, http, is_nil}
use amaro.Context.{Context, returned, Handler}
use amaro.Middlewares.Jwt.{
  SigningMethod, hs256, hs384, hs512, rs256, rs384, rs512, other_method, method_eq, JwtConfig,
  extract_token,
}
use amaro.Middlewares.Jwt.Tokens.{
  Key, JwtLibrary, configured_key, key_func, refused_by, check_times, parse_token, on_token,
  jwt_with_config,
}

method_eq_sound : (m n : SigningMethod) → method_eq m n ≡ true → m ≡ n
method_eq_sound hs256 hs256 h = refl
method_eq_sound hs384 hs384 h = refl
method_eq_sound hs512 hs512 h = refl
method_eq_sound rs256 rs256 h = refl
method_eq_sound rs384 rs384 h = refl
method_eq_sound rs512 rs512 h = refl
method_eq_sound (other_method m) (other_method n) h = ground arith
method_eq_sound _ _ h = cc

Sum-cases : {A B : Type 0} (x : A ⊎ B) → ((a : A) × (x ≡ inl a)) ⊎ ((b : B) × (x ≡ inr b))
Sum-cases (inl a) = inl (a, refl)
Sum-cases (inr b) = inr (b, refl)

leb_of_ltb : (a b : ℤ) → ltb_ℤ a b ≡ false → leb_ℤ b a ≡ true
leb_of_ltb a b h = ground arith

nil_of_is_nil : (e : Error) → is_nil e ≡ true → e ≡ nil
nil_of_is_nil nil h = refl
nil_of_is_nil (plain m) h = cc
nil_of_is_nil (http code m i) h = cc

module _ {S T K M F : Type 0} (lib : JwtLibrary S T K M F) (now : S → ℕ)
    (Verified : Str → Key K → T → Type 0) where
  -- The number of a claim of a token, if there is one, is in the given relation to the time.
  abbrev ClaimHolds : Str → (ℕ → ℤ → Bool) → T → S → Type 0
  ClaimHolds name holds t s =
      (claims : M) (x : F)
      → lib.claims_of t ≡ some claims
      → lib.number_claim name claims ≡ some x
      → holds (now s) (lib.to_int64 x) ≡ true

  abbrev not_after : ℕ → ℤ → Bool
  not_after time limit = leb_ℤ (pos time) limit

  abbrev not_before : ℕ → ℤ → Bool
  not_before time limit = leb_ℤ limit (pos time)

  -- The request carries the token, in the place that is configured for it; it is signed by the
  -- configured method, with the configured key; and the time is within its claims.
  pub record IsAuthentic (cfg : JwtConfig S T K) (c : Context) (s : S) (t : T) : Type 0 where
    pub token : Str
    pub found : extract_token cfg c ≡ (token, nil)
    pub same_method : lib.method_of t ≡ cfg.signing_method
    pub key : Key K
    pub configured : configured_key lib now cfg ≡ inl key
    pub verified : Verified token key t
    pub valid : lib.is_valid t ≡ true
    pub expiry : ClaimHolds (codes "exp") not_after t s
    pub start : ClaimHolds (codes "nbf") not_before t s
    pub issue : ClaimHolds (codes "iat") not_before t s

  key_func-inl :
      (cfg : JwtConfig S T K) (t : T) (key : Key K)
      → key_func lib now cfg t ≡ inl key
      → (lib.method_of t ≡ cfg.signing_method) × (configured_key lib now cfg ≡ inl key)
  unfolding key_func
  key_func-inl cfg t key h = elim (Bool-cases (method_eq (lib.method_of t) cfg.signing_method)) [
    | inl e ↦ (method_eq_sound _ _ e, ground (arith, h, e))
    | inr e ↦ absurd (ground (arith, h, e))
  ]

  refused_by-ClaimHolds :
      (name : Str) (refuses : ℤ → Bool) (t : T) (claims : M) (x : F)
      → refused_by lib now name refuses (lib.claims_of t) ≡ false
      → lib.claims_of t ≡ some claims
      → lib.number_claim name claims ≡ some x
      → refuses (lib.to_int64 x) ≡ false
  unfolding refused_by
  refused_by-ClaimHolds name refuses t claims x h e k = ground (arith, h, e, k)

  late-ClaimHolds :
      (name : Str) (t : T) (s : S)
      → refused_by lib now name (λ limit. ltb_ℤ limit (pos (now s))) (lib.claims_of t) ≡ false
      → ClaimHolds name not_after t s
  late-ClaimHolds name t s h claims x e k =
      leb_of_ltb (lib.to_int64 x) (pos (now s))
        (refused_by-ClaimHolds name (λ limit. ltb_ℤ limit (pos (now s))) t claims x h e k)

  early-ClaimHolds :
      (name : Str) (t : T) (s : S)
      → refused_by lib now name (λ limit. ltb_ℤ (pos (now s)) limit) (lib.claims_of t) ≡ false
      → ClaimHolds name not_before t s
  early-ClaimHolds name t s h claims x e k =
      leb_of_ltb (pos (now s)) (lib.to_int64 x)
        (refused_by-ClaimHolds name (λ limit. ltb_ℤ (pos (now s)) limit) t claims x h e k)

  abbrev refused : Str → (ℤ → Bool) → T → Bool
  refused name refuses t = refused_by lib now name refuses (lib.claims_of t)

  check_times-inl :
      (t t' : T) (s : S)
      → check_times lib now t s ≡ inl t'
      → (t ≡ t')
        × (refused (codes "exp") (λ exp. ltb_ℤ exp (pos (now s))) t ≡ false)
        × (refused (codes "nbf") (λ nbf. ltb_ℤ (pos (now s)) nbf) t ≡ false)
        × (refused (codes "iat") (λ iat. ltb_ℤ (pos (now s)) iat) t ≡ false)
  unfolding check_times
  check_times-inl t t' s h =
      by_tests (refused (codes "exp") (λ exp. ltb_ℤ exp (pos (now s))) t)
        (refused (codes "nbf") (λ nbf. ltb_ℤ (pos (now s)) nbf) t)
        (refused (codes "iat") (λ iat. ltb_ℤ (pos (now s)) iat) t) h
    where
      by_tests :
          (expired early future : Bool)
          → ((if expired
                then inr (plain (codes "token has expired"))
                else if early
                then inr (plain (codes "token not valid yet"))
                else if future
                then inr (plain (codes "token issued in the future"))
                else inl t)
              ≡ inl t')
          → (t ≡ t') × (expired ≡ false) × (early ≡ false) × (future ≡ false)
      by_tests false false false e = (cc, refl, refl, refl)
      by_tests false false true e = cc
      by_tests false true _ e = cc
      by_tests true _ _ e = cc

  parse_token-IsAuthentic :
      ((token : Str) (f : T → Key K ⊎ Error) (s : S) (t : T)
        → lib.parse token f s ≡ inl t
        → (key : Key K) × (f t ≡ inl key) × Verified token key t)
      → (cfg : JwtConfig S T K) (c : Context) (s : S) (token : Str) (t : T)
      → extract_token cfg c ≡ (token, nil)
      → parse_token lib now token cfg s ≡ inl t
      → IsAuthentic cfg c s t
  unfolding parse_token
  parse_token-IsAuthentic parse_verifies cfg c s token t found h =
      elim (Sum-cases (lib.parse token (key_func lib now cfg) s)) [
        | inr (e, k) ↦ absurd (ground (arith, h, k))
        | inl (u, k) ↦ elim (Bool-cases (lib.is_valid u)) [
          | inr e ↦ absurd (ground (arith, h, k, e))
          | inl e ↦
              let times : check_times lib now u s ≡ inl t = ground (arith, h, k, e) in
              let (same, exp, nbf, iat) = check_times-inl u t s times in
              let (key, keyed, verified) = parse_verifies token (key_func lib now cfg) s u k in
              let (method, configured) = key_func-inl cfg u key keyed in
              subst (IsAuthentic cfg c s) same (record {
                token = token;
                found = found;
                same_method = method;
                key = key;
                configured = configured;
                verified = verified;
                valid = e;
                expiry = late-ClaimHolds (codes "exp") u s exp;
                start = early-ClaimHolds (codes "nbf") u s nbf;
                issue = early-ClaimHolds (codes "iat") u s iat;
              })
        ]
      ]

  parse_token-inr :
      (token : Str) (cfg : JwtConfig S T K) (s : S) (e : Error)
      → parse_token lib now token cfg s ≡ inr e
      → e ≢ nil
  unfolding parse_token check_times
  parse_token-inr token cfg s e h k = ground (arith, h, k)

  -- For a request that the skipper does not pass by, and if jwt.Parse only returns tokens whose
  -- signature it has verified with the key that the key function gives it: either the error handler is
  -- called with an error, in place of the handler; or the request carries an authentic token (found
  -- where configured, signed by the configured method with the configured key, and within its times),
  -- and what follows is done with it.
  pub jwt-IsAuthentic :
      ((token : Str) (f : T → Key K ⊎ Error) (s : S) (t : T)
        → lib.parse token f s ≡ inl t
        → (key : Key K) × (f t ≡ inl key) × Verified token key t)
      → (cfg : JwtConfig S T K) (next : Handler S) (c0 c : Context) (s0 s : S)
      → cfg.skipper c0 s0 ≡ returned false c s
      → ((err : Error) × (err ≢ nil)
          × (jwt_with_config lib now cfg next c0 s0 ≡ cfg.error_handler err c s))
        ⊎ ((t : T) × IsAuthentic cfg c s t
            × (jwt_with_config lib now cfg next c0 s0 ≡ on_token lib now cfg (inl t) next c s))
  unfolding jwt_with_config on_token
  jwt-IsAuthentic parse_verifies cfg next c0 c s0 s asked =
      by_token (extract_token cfg c).0 (extract_token cfg c).1 refl
    where
      with_result :
          (token : Str)
          → extract_token cfg c ≡ (token, nil)
          → (result : T ⊎ Error) → parse_token lib now token cfg s ≡ result
          → jwt_with_config lib now cfg next c0 s0 ≡ on_token lib now cfg result next c s
      with_result token k result h =
          let extracted : jwt_with_config lib now cfg next c0 s0
              ≡ on_token lib now cfg (parse_token lib now token cfg s) next c s =
            ground (arith, asked, k) in
          extracted ∙ ap (λ r. on_token lib now cfg r next c s) h

      by_token :
          (token : Str) (err : Error)
          → extract_token cfg c ≡ (token, err)
          → ((e : Error) × (e ≢ nil)
              × (jwt_with_config lib now cfg next c0 s0 ≡ cfg.error_handler e c s))
            ⊎ ((t : T) × IsAuthentic cfg c s t
                × (jwt_with_config lib now cfg next c0 s0 ≡ on_token lib now cfg (inl t) next c s))
      by_token token (plain m) k = inl (plain m, (λ e. cc e), ground (arith, asked, k))
      by_token token (http code m i) k = inl (http code m i, (λ e. cc e), ground (arith, asked, k))
      by_token token nil k = elim (Sum-cases (parse_token lib now token cfg s)) [
        | inr (e, h) ↦ inl (e, parse_token-inr token cfg s e h, with_result token k (inr e) h)
        | inl (t, h) ↦ inr (
          t,
          parse_token-IsAuthentic parse_verifies cfg c s token t k h,
          with_result token k (inl t) h,
        )
      ]
