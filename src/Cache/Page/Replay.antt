-- ===== src/Cache/Page/Replay.antt =====
-- A page that is in the cache.
use amaro.Prelude.{
  ℕ, ◌≡◌, refl, ◌∙◌, true, false, List, ◌++◌, Option, none, some, Str, codes, str_eq, str_eq_self,
  ltb, length, get_elem?, arith,
}
use amaro.Errors.{nil}
use amaro.Http.{
  Header, Request, Writer, Recorder, Sent, header_get, header_set, on_header, record_calls,
  canonical_key,
}
use amaro.Http.Sending.{write-write_header_sent, write-write_header_body}
use amaro.Http.Fields.{header_get-set}
use amaro.Http.Method
use amaro.Context.{Context, returned, Act, Handler, the_request, on_writer}
use amaro.Cache.{is_past, expiration_of}
use amaro.Cache.Interface.{CacheStore}
use amaro.Cache.Page.{
  CachedResponse, PageFormat, PageMemory, key_generator, add_fields, look_up, replay, hit,
  save_page, save_recorded, miss, page_or, cache_page,
}

module _ {V C W : Type 0} (store : CacheStore V C) (format : PageFormat V)
    (url_text : Request → Str) (now : W → ℕ) (ttl : ℕ) where
  -- The memory behind store.Get.
  abbrev pub looked_up : Str → PageMemory C W → PageMemory C W
  looked_up key s = record s { cache = (store.get (now s.rest) key s.cache).1 }

  -- The context that the handler is called with.
  abbrev pub recording : Writer → Context → Context
  unfolding record_calls
  recording w c = record c { writer = some (record_calls w) }

  look_up-none :
      (key : Str) (c : Context) (s : PageMemory C W)
      → store.value_at (now s.rest) key s.cache ≡ none
      → look_up store format url_text now ttl key c s ≡ returned none c (looked_up key s)
  unfolding look_up
  look_up-none key c s h = ground (arith, h, store.get_value_at (now s.rest) key s.cache)

  look_up-some :
      (key : Str) (c : Context) (s : PageMemory C W) {v : V} {bytes : Str} {page : CachedResponse}
      → store.value_at (now s.rest) key s.cache ≡ some v
      → format.bytes_of v ≡ some bytes
      → format.decode bytes ≡ some page
      → look_up store format url_text now ttl key c s ≡ returned (some page) c (looked_up key s)
  unfolding look_up
  look_up-some key c s h k l = ground (arith, h, k, l, store.get_value_at (now s.rest) key s.cache)

  hit-run :
      (page : CachedResponse) (c : Context) (s : PageMemory C W) {w : Writer}
      → c.writer ≡ some w
      → hit store format url_text now ttl page c s
        ≡ returned nil (record c { writer = some (replay store format url_text now ttl page w) }) s
  unfolding hit on_writer
  hit-run page c s h = ground (arith, h)

  replay-sent :
      (page : CachedResponse) (w : Writer)
      → w.sent ≡ none
      → (sent : Sent) × ((replay store format url_text now ttl page w).sent ≡ some sent)
        × (sent.status ≡ page.status_code)
        × (header_get (codes "X-Cache") sent.header ≡ codes "HIT")
  unfolding replay on_header canonical_key str_eq
  replay-sent page w h =
      let w1 = on_header (add_fields page.headers) w in
      let w2 = on_header (header_set (codes "X-Cache") (codes "HIT")) w1 in
      (
        record { status = page.status_code; header = w2.header },
        write-write_header_sent page.status_code page.body w2 h,
        refl,
        header_get-set (codes "X-Cache") (codes "X-Cache") (codes "HIT") w1.header,
      )

  replay-body :
      (page : CachedResponse) (w : Writer)
      → (replay store format url_text now ttl page w).body ≡ w.body ++ page.body
  unfolding replay on_header
  replay-body page w = write-write_header_body page.status_code page.body _

  value_at-left :
      (key : Str) (value : V) (s s_later : PageMemory C W)
      → s_later.cache ≡ store.set (now s.rest) key value ttl s.cache
      → is_past (now s_later.rest) (expiration_of (now s.rest) ttl) ≡ false
      → store.value_at (now s_later.rest) key s_later.cache ≡ some value
  value_at-left key value s s_later left alive = ground (
    arith,
    left,
    alive,
    str_eq_self key,
    store.value_at_set (now s.rest) (now s_later.rest) key key value ttl s.cache,
  )

  save_page-run :
      (key : Str) (header : Header) (recorder : Recorder) (s : PageMemory C W) {bytes : Str}
      → ltb recorder.status_code 400 ≡ true
      → format.encode (record {
        status_code = recorder.status_code;
        headers = header;
        body = recorder.recorded;
      })
        ≡ some bytes
      → save_page store format url_text now ttl key header recorder s
        ≡ record s { cache = store.set (now s.rest) key (format.of_bytes bytes) ttl s.cache }
  unfolding save_page
  save_page-run key header recorder s h k = ground (arith, h, k)

  miss-run :
      (key : Str) (next : Handler (PageMemory C W)) (c c' : Context) (s s' : PageMemory C W)
      {w w' : Writer} {recorder : Recorder} {bytes : Str}
      → c.writer ≡ some w
      → next (recording w c) s ≡ returned nil c' s'
      → c'.writer ≡ some w'
      → get_elem? w'.recorders (length w.recorders) ≡ some recorder
      → ltb recorder.status_code 400 ≡ true
      → format.encode (record {
        status_code = recorder.status_code;
        headers = w'.header;
        body = recorder.recorded;
      })
        ≡ some bytes
      → miss store format url_text now ttl key next c s
        ≡ returned nil c'
            (record s' { cache = store.set (now s'.rest) key (format.of_bytes bytes) ttl s'.cache })
  unfolding miss save_recorded
  miss-run key next c c' s s' {w} {w'} {recorder} h handled k l m n =
      ground (arith, h, handled, k, l, save_page-run key w'.header recorder s' m n)

  module _ (generators : List (Act (PageMemory C W) Str)) where
    -- A GET request under a key.
    pub record IsAsked (key : Str) (c : Context) (s : PageMemory C W) : Type 0 where
      pub request : Request
      pub has_request : c.request ≡ some request
      pub is_get : str_eq request.method Method.get ≡ true
      pub has_key : key_generator store format url_text now ttl generators c s ≡ returned key c s

    cache_page-run :
        (key : Str) (page : Option CachedResponse) (next : Handler (PageMemory C W)) (c : Context)
        (s : PageMemory C W)
        → IsAsked key c s
        → look_up store format url_text now ttl key c s ≡ returned page c (looked_up key s)
        → cache_page store format url_text now ttl generators next c s
          ≡ page_or store format url_text now ttl
              (miss store format url_text now ttl key)
              page
              next
              c
              (looked_up key s)
    unfolding cache_page the_request
    cache_page-run key page next c s asked h =
        ground (arith, asked.has_request, asked.is_get, asked.has_key, h)

    -- If gob decodes what it encodes, and the bytes in the cache are what was put there: a GET request
    -- whose key is not in the cache is handled by the handler; if this returns nil with a status below
    -- 400, and the response can be encoded, the middleware returns nil too. A later GET request under
    -- that key, before the page expires and with the cache as it was left, is answered without its handler: with the
    -- recorded status, and the header X-Cache HIT, if nothing was sent before, and with the recorded
    -- body.
    pub cache_page-replays :
        ((page : CachedResponse) (bytes : Str)
          → format.encode page ≡ some bytes
          → format.decode bytes ≡ some page)
        → ((bytes : Str) → format.bytes_of (format.of_bytes bytes) ≡ some bytes)
        → (key : Str) (next never_called : Handler (PageMemory C W)) (c c' later : Context)
          (s s' s_later : PageMemory C W) {w w' w_later : Writer} {recorder : Recorder}
          {bytes : Str}
        → IsAsked key c s
        → c.writer ≡ some w
        → store.value_at (now s.rest) key s.cache ≡ none
        → next (recording w c) (looked_up key s) ≡ returned nil c' s'
        → c'.writer ≡ some w'
        → get_elem? w'.recorders (length w.recorders) ≡ some recorder
        → ltb recorder.status_code 400 ≡ true
        → format.encode (record {
          status_code = recorder.status_code;
          headers = w'.header;
          body = recorder.recorded;
        })
          ≡ some bytes
        → IsAsked key later s_later
        → later.writer ≡ some w_later
        → w_later.sent ≡ none
        → s_later.cache ≡ store.set (now s'.rest) key (format.of_bytes bytes) ttl s'.cache
        → is_past (now s_later.rest) (expiration_of (now s'.rest) ttl) ≡ false
        → (cache_page store format url_text now ttl generators next c s
            ≡ returned nil c' (record s' {
              cache = store.set (now s'.rest) key (format.of_bytes bytes) ttl s'.cache;
            }))
          × ((answer : Writer) × (cache_page store format url_text now ttl generators never_called
                  later s_later
                ≡ returned nil (record later { writer = some answer }) (looked_up key s_later))
              × (answer.body ≡ w_later.body ++ recorder.recorded)
              × ((sent : Sent) × (answer.sent ≡ some sent)
                  × (sent.status ≡ recorder.status_code)
                  × (header_get (codes "X-Cache") sent.header ≡ codes "HIT")))
    unfolding page_or
    cache_page-replays decodes kept key next never_called c c' later s s' s_later {w' = w'}
          {w_later = w_later} {recorder = recorder} {bytes = bytes} asked has_writer absent handled
          has_writer' found below encoded asked_later has_writer_later unsent left alive =
        let page : CachedResponse = record {
          status_code = recorder.status_code;
          headers = w'.header;
          body = recorder.recorded;
        } in
        let there = value_at-left key (format.of_bytes bytes) s' s_later left alive in
        let found_page =
          look_up-some key later s_later there (kept bytes) (decodes page bytes encoded) in
        (
          cache_page-run key none next c s asked (look_up-none key c s absent)
              ∙ miss-run key next c c' (looked_up key s) s' has_writer handled has_writer' found
                  below encoded,
          (
            replay store format url_text now ttl page w_later,
            cache_page-run key (some page) never_called later s_later asked_later found_page
                ∙ hit-run page later (looked_up key s_later) has_writer_later,
            replay-body page w_later,
            replay-sent page w_later unsent,
          ),
        )
