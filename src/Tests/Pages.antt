-- ===== src/Tests/Pages.antt =====
-- A page that is cached and replayed.
use amaro.Prelude.{ℕ, ◌≡◌, refl, [], ◌∷◌, Option, none, some, Str, codes, str_eq, arith, get_elem?}
use amaro.Prelude.Assoc.{Assoc}
use amaro.Errors.{nil}
use amaro.Http.{
  Header, Request, Writer, Sent, Recorder, new_writer, header_get, write_header, write,
  record_calls,
}
use amaro.Http.Method
use amaro.Cache.{Item, get, set}
use amaro.Cache.Visible.{seen}
use amaro.Cache.Interface.{memory_cache}
use amaro.Cache.Page.{CachedResponse, PageFormat, PageMemory, cache_page, default_key_generator}
use amaro.Cache.Page.Replay.{looked_up, IsAsked, cache_page-replays}
use amaro.Context.{Context, Handler, returned, write_string}
use amaro.Tests.{asks, context_of}

-- A page without headers is its status in front of its body.
abbrev encoded_page : Header → ℕ → Str → Option Str
encoded_page [] status body = some (status ∷ body)
encoded_page (_ ∷ _) status body = none

abbrev decoded_page : Str → Option CachedResponse
decoded_page [] = none
decoded_page (status ∷ body) = some (record { status_code = status; headers = []; body = body })

abbrev plain_pages : PageFormat Str
plain_pages = record {
  encode = λ page. encoded_page page.headers page.status_code page.body;
  decode = decoded_page;
  of_bytes = λ bytes. bytes;
  bytes_of = λ bytes. some bytes;
}

decodes :
    (headers : Header) (status : ℕ) (body bytes : Str)
    → encoded_page headers status body ≡ some bytes
    → decoded_page bytes ≡ some (record { status_code = status; headers = headers; body = body })
decodes [] status body bytes h = ground (arith, h)
decodes (_ ∷ _) status body bytes h = cc

abbrev Memory : Type 0
Memory = PageMemory (Assoc (Item Str)) ℕ

abbrev path_text : Request → Str
path_text r = r.path

abbrev news : Context
news = context_of (asks Method.get (codes "/news"))

abbrev news_key : Str
news_key = codes "route_cache:/news"

abbrev empty_cache : Memory
empty_cache = record { cache = []; rest = 100 }

abbrev page_handler : Handler Memory
unfolding write_string
page_handler = write_string 200 (codes "hello")

abbrev written : Writer
unfolding write write_header record_calls
written = write (codes "hello") (write_header 200 (record_calls new_writer))

abbrev hello_page : Recorder
hello_page = record { status_code = 200; recorded = codes "hello" }

abbrev cached : Memory
unfolding set
cached = record { cache = set 100 news_key (200 ∷ codes "hello") 60 []; rest = 130 }

news-IsAsked :
    (s : Memory) → IsAsked memory_cache plain_pages path_text (λ t. t) 60 [] news_key news s
unfolding default_key_generator str_eq
news-IsAsked s = record {
  request = asks Method.get (codes "/news");
  has_request = refl;
  is_get = refl;
  has_key = refl;
}

cache_page-replays_example :
    (cache_page memory_cache plain_pages path_text (λ t. t) 60 [] page_handler news empty_cache
      ≡ returned nil (record news { writer = some written }) (record cached { rest = 100 }))
    × ((answer : Writer) × (cache_page memory_cache plain_pages path_text
            (λ t. t)
            60
            []
            page_handler
            news
            cached
          ≡ returned nil
              (record news { writer = some answer })
              (looked_up memory_cache plain_pages path_text (λ t. t) 60 news_key cached))
        × (answer.body ≡ codes "hello")
        × ((sent : Sent) × (answer.sent ≡ some sent)
            × (sent.status ≡ 200)
            × (header_get (codes "X-Cache") sent.header ≡ codes "HIT")))
unfolding written page_handler cached get_elem? get set seen
cache_page-replays_example =
    cache_page-replays memory_cache plain_pages path_text (λ t. t) 60 []
      (λ page bytes h. decodes page.headers page.status_code page.body bytes h) (λ bytes. refl)
      news_key page_handler page_handler news (record news { writer = some written }) news
      empty_cache (record empty_cache { cache = [] }) cached (news-IsAsked empty_cache) refl refl
      refl refl refl refl refl (news-IsAsked cached) refl refl refl refl
