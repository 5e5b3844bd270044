-- ===== src/Cache/Visible.antt =====
-- What a reader of the cache sees over time.
use amaro.Prelude.{
  ◌≡◌, refl, ◌∙◌, ℕ, ◌+◌, ◌≤◌, ltb, ◌&&◌, true, List, [], ◌∷◌, Option, none, some, Str, str_eq,
  str_eq_iff, Option-cases, Bool-cases, inl, inr, if◌then◌else◌, arith,
}
use amaro.Prelude.Assoc.{Assoc, load, delete, load-store, load-delete}
use amaro.Prelude.Int.{ℤ, pos, negsuc, bits64, InRange, wrap_int_iff}
use amaro.Cache.{Item, is_past, expiration_of, is_expired, get, set, keys_of, sweep, cleanup}

-- Where UnixNano fits an int64, the expiration is past as soon as the ttl is over, and never for 0.
pub is_past-expiration_of :
    (now later ttl : ℕ)
    → InRange bits64 (pos (now + ttl))
    → is_past later (expiration_of now ttl) ≡ (ltb 0 ttl && ltb (now + ttl) later)
unfolding is_past expiration_of
is_past-expiration_of now later ttl h =
    rw ((wrap_int_iff bits64 (pos (now + ttl))).1 h) (by_ttl now later ttl)
  where
    by_ttl :
        (now later ttl : ℕ)
        → is_past later (if ltb 0 ttl then pos (now + ttl) else pos 0)
          ≡ (ltb 0 ttl && ltb (now + ttl) later)
    by_ttl now later ttl = ground arith

is_past-later :
    (now later : ℕ) (exp : ℤ) → now ≤ later → is_past now exp ≡ true → is_past later exp ≡ true
unfolding is_past
is_past-later now later (pos exp) le h = ground arith
is_past-later now later (negsuc exp) le h = refl

module _ {V : Type 0} where
  -- The value under a key at a time: there is one until its item expires.
  abbrev pub live : ℕ → Option (Item V) → Option V
  live now none = none
  live now (some it) = if is_expired now it then none else some it.value

  unfoldable pub seen : ℕ → Str → Assoc (Item V) → Option V
  unfolding load
  seen now key items = live now (load key items)

  expired-later :
      (now later : ℕ) (it : Item V)
      → now ≤ later
      → is_expired now it ≡ true
      → is_expired later it ≡ true
  unfolding is_expired
  expired-later now later it le h = is_past-later now later it.expiration le h

  -- Deleting an item that has expired is not seen, then or later.
  seen-delete :
      (now later : ℕ) (key j : Str) (items : Assoc (Item V)) (it : Item V)
      → now ≤ later
      → load key items ≡ some it
      → is_expired now it ≡ true
      → seen later j (delete key items) ≡ seen later j items
  unfolding seen
  seen-delete now later key j items it le e h =
      ground (arith, e, load-delete key j items, expired-later now later it le h, str_eq_iff key j)

  seen-sweep :
      (now later : ℕ) (j : Str) (keys : List Str) (items : Assoc (Item V))
      → now ≤ later
      → seen later j (sweep now keys items) ≡ seen later j items
  unfolding sweep
  seen-sweep now later j [] items le = refl
  seen-sweep now later j (key ∷ keys) items le = elim (Option-cases (load key items)) [
    | inl e ↦ rw (sweep, e) (seen-sweep now later j keys items le)
    | inr (it, e) ↦ elim (Bool-cases (is_expired now it)) [
      | inl h ↦
          rw (sweep, e, h)
            (seen-sweep now later j keys (delete key items) le
              ∙ seen-delete now later key j items it le e h)
      | inr h ↦ rw (sweep, e, h) (seen-sweep now later j keys items le)
    ]
  ]

  -- The clean-up cannot be noticed: at any later time, every key has the value it would have without.
  pub cleanup-unseen :
      (now later : ℕ) (j : Str) (items : Assoc (Item V))
      → now ≤ later
      → seen later j (cleanup now items) ≡ seen later j items
  unfolding cleanup
  cleanup-unseen now later j items le = seen-sweep now later j (keys_of items) items le

  -- A lookup gives the value that its key has at that time, and although it may delete an entry, every
  -- key has the value at any later time that it would have without.
  pub get-seen :
      (now later : ℕ) (key j : Str) (items : Assoc (Item V))
      → now ≤ later
      → ((get now key items).0 ≡ seen now key items)
        × (seen later j ((get now key items).1) ≡ seen later j items)
  unfolding get seen
  get-seen now later key j items le = elim (Option-cases (load key items)) [
    | inl e ↦ rw (get, seen, e) (refl, refl)
    | inr (it, e) ↦ elim (Bool-cases (is_expired now it)) [
      | inl h ↦ rw (get, seen, e, h) (refl, seen-delete now later key j items it le e h)
      | inr h ↦ rw (get, seen, e, h) (refl, refl)
    ]
  ]

  -- After a Set, its key has the value until the expiration that was noted is past.
  pub seen-set :
      (now later : ℕ) (key j : Str) (value : V) (ttl : ℕ) (items : Assoc (Item V))
      → seen later j (set now key value ttl items) ≡ (
          if str_eq key j
          then (if is_past later (expiration_of now ttl) then none else some value)
          else seen later j items)
  unfolding set seen is_expired
  seen-set now later key j value ttl items =
      ground (
        arith,
        load-store key j (record { value = value; expiration = expiration_of now ttl }) items,
      )

  -- After a Set whose ttl ends while UnixNano fits an int64, its key has the value until the ttl is
  -- over, and for ever if the ttl is 0; the other keys have what they had.
  pub set-seen :
      (now later : ℕ) (key j : Str) (value : V) (ttl : ℕ) (items : Assoc (Item V))
      → InRange bits64 (pos (now + ttl))
      → seen later j (set now key value ttl items) ≡ (
          if str_eq key j
          then (if ltb 0 ttl && ltb (now + ttl) later then none else some value)
          else seen later j items)
  set-seen now later key j value ttl items h =
      rw (seen-set now later key j value ttl items, is_past-expiration_of now later ttl h) refl
