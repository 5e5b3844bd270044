-- ===== src/Cache/Page.antt =====
-- addons/cache/middleware.go: CachePage, over any cache. Parameters: what the cache holds, with the
-- conversion of bytes to it and the type assertion back, the gob encoder and decoder, and the text of
-- a request's URL. The recorder that the middleware puts in front of the writer is one of the
-- writer's `recorders`. The time is read off the memory.
pub mod Replay
use amaro.Prelude.{
  ℕ, Bool, true, false, not, List, [], ◌∷◌, ◌++◌, Option, none, some, Str, codes, str_eq, ltb,
  length, get_elem?, if◌then◌else◌,
}
use amaro.Errors.{Error, nil, is_nil}
use amaro.Http.{
  Header, Request, Writer, Recorder, header_add, header_set, on_header, write_header, write,
  record_calls,
}
use amaro.Http.Method
use amaro.Context.{
  Context, Outcome, returned, panicked, Act, Handler, Middleware, ◌>>=◌, ◌>>◌, pure, panic,
  nil_dereference, the_request, on_writer,
}
use amaro.Cache.Interface.{CacheStore}

pub record CachedResponse : Type 0 where
  pub status_code : ℕ
  pub headers : Header
  pub body : Str

-- The way of a response into the cache and back; `none` is an error, or another type.
pub record PageFormat (V : Type 0) : Type 0 where
  pub encode : CachedResponse → Option Str
  pub decode : Str → Option CachedResponse
  pub of_bytes : Str → V
  pub bytes_of : V → Option Str

-- The cache, and all other memory.
pub record PageMemory (C W : Type 0) : Type 0 where
  pub cache : C
  pub rest : W

-- The two loops that replay the headers.
add_values : Str → List Str → Header → Header
unfolding header_add
add_values key [] h = h
add_values key (v ∷ vs) h = add_values key vs (header_add key v h)

unfoldable pub add_fields : Header → Header → Header
unfolding add_values
add_fields [] h = h
add_fields ((key, values) ∷ fields) h = add_fields fields (add_values key values h)

module _ {V C W : Type 0} (store : CacheStore V C) (format : PageFormat V)
    (url_text : Request → Str) (now : W → ℕ) (ttl : ℕ) where
  unfoldable pub default_key_generator : Act (PageMemory C W) Str
  unfolding the_request
  default_key_generator = do r ← the_request; pure (codes "route_cache:" ++ url_text r)

  abbrev pub key_generator : List (Act (PageMemory C W) Str) → Act (PageMemory C W) Str
  key_generator [] = default_key_generator
  key_generator (generator ∷ _) = generator

  -- store.Get, with the type assertion and the decoding of what it finds.
  look_up : Str → Act (PageMemory C W) (Option CachedResponse)
  look_up key c s =
      let (value, cache) = store.get (now s.rest) key s.cache in
      let page : Option CachedResponse = elim value [
        | none ↦ none
        | some v ↦ elim (format.bytes_of v) [ none ↦ none | some bytes ↦ format.decode bytes ]
      ] in
      returned page c (record s { cache = cache })

  abbrev pub replay : CachedResponse → Writer → Writer
  unfolding on_header add_fields header_set write_header write
  replay page w =
      let w1 = on_header (add_fields page.headers) w in
      let w2 = on_header (header_set (codes "X-Cache") (codes "HIT")) w1 in
      write page.body (write_header page.status_code w2)

  hit : CachedResponse → Act (PageMemory C W) Error
  unfolding on_writer replay
  hit page = do on_writer (replay page); pure nil

  -- What the recorder has seen goes into the cache, if the response was no error.
  save_page : Str → Header → Recorder → PageMemory C W → PageMemory C W
  save_page key header recorder s =
      if ltb recorder.status_code 400
      then elim (format.encode (record {
        status_code = recorder.status_code;
        headers = header;
        body = recorder.recorded;
      })) [
        | none ↦ s
        | some bytes ↦ record s {
          cache = store.set (now s.rest) key (format.of_bytes bytes) ttl s.cache;
        }
      ]
      else s

  -- The recorder is the one that was put behind the given number of others.
  save_recorded : Str → ℕ → Act (PageMemory C W) (Unit {0})
  unfolding save_page get_elem?
  save_recorded key before c s = elim c.writer [
    | none ↦ panicked nil_dereference c s
    | some w ↦ elim (get_elem? w.recorders before) [
      | none ↦ returned tt c s
      | some recorder ↦ returned tt c (save_page key w.header recorder s)
    ]
  ]

  miss : Str → Middleware (PageMemory C W)
  unfolding save_recorded record_calls
  miss key next c s =
      let before : ℕ = elim c.writer [ none ↦ 0 | some w ↦ length w.recorders ] in
      let recording = record c {
        writer = elim c.writer [ none ↦ none | some w ↦ some (record_calls w) ];
      } in
      (do err ← next; if is_nil err then save_recorded key before >> pure nil else pure err)
        recording s

  page_or : Middleware (PageMemory C W) → Option CachedResponse → Middleware (PageMemory C W)
  unfolding hit
  page_or other none = other
  page_or other (some page) = λ next. hit page

  unfoldable pub cache_page : List (Act (PageMemory C W) Str) → Middleware (PageMemory C W)
  unfolding look_up miss page_or the_request str_eq default_key_generator
  cache_page generators next = do
    r ← the_request
    if not (str_eq r.method Method.get)
        then next
        else (do key ← key_generator generators; page ← look_up key; page_or (miss key) page next)
