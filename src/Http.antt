-- ===== src/Http.antt =====
-- What the program uses of Go's net/http: requests as they reach a handler, header maps under
-- canonical keys, and the response writer. A request comes with its query and its cookies parsed.
-- Not modelled: 1xx statuses, the panic of WriteHeader on a status outside 100..999, and the
-- Content-Type that the first Write sniffs.
pub mod Status
pub mod Method
pub mod Fields
pub mod Sending
use amaro.Prelude.{
  ℕ, ◌+◌, ◌-◌, Bool, true, false, not, ◌&&◌, ◌||◌, List, [], ◌∷◌, ◌++◌, Option, none, some, Str,
  codes, ◌==◌, leb, if◌then◌else◌,
}
use amaro.Prelude.Assoc.{Assoc, load, store, delete}

abbrev pub Header : Type 0
Header = Assoc (List Str)

pub record Request : Type 0 where
  pub method : Str
  pub path : Str
  pub header : Header
  pub query : Assoc (List Str)
  pub cookies : Assoc Str
  pub remote_addr : Str
  pub tls : Bool

abbrev is_lower : ℕ → Bool
is_lower c = leb b'a' c && leb c b'z'

abbrev is_upper : ℕ → Bool
is_upper c = leb b'A' c && leb c b'Z'

-- a byte that a header field's name may hold
is_token_byte : ℕ → Bool
is_token_byte c =
    is_lower c
    || is_upper c
    || (leb b'0' c && leb c b'9')
    || c == b'!'
    || c == b'#'
    || c == b'$'
    || c == b'%'
    || c == b'&'
    || c == 39
    || c == b'*'
    || c == b'+'
    || c == b'-'
    || c == b'.'
    || c == b'^'
    || c == b'_'
    || c == 96
    || c == b'|'
    || c == b'~'

all_token_bytes : Str → Bool
unfolding is_token_byte
all_token_bytes [] = true
all_token_bytes (c ∷ s) = is_token_byte c && all_token_bytes s

-- Upper case at the start and behind a dash, lower case elsewhere.
canonical_from : Bool → Str → Str
canonical_from upper [] = []
canonical_from upper (c ∷ s) =
    (if upper && is_lower c then c - 32 else if not upper && is_upper c then c + 32 else c)
    ∷ canonical_from (c == b'-') s

-- textproto.CanonicalMIMEHeaderKey: a key with a byte that is not allowed stays as it is.
unfoldable pub canonical_key : Str → Str
unfolding all_token_bytes canonical_from
canonical_key k = if all_token_bytes k then canonical_from true k else k

-- Header.Get: the first value, or "".
unfoldable pub header_get : Str → Header → Str
unfolding load canonical_key
header_get k h = elim (load (canonical_key k) h) [ some (v ∷ _) ↦ v | _ ↦ [] ]

-- Header.Set, Header.Add, Header.Del
unfoldable pub header_set : Str → Str → Header → Header
unfolding store canonical_key
header_set k v h = store (canonical_key k) (v ∷ []) h

unfoldable pub header_add : Str → Str → Header → Header
unfolding load store canonical_key
header_add k v h =
    let key = canonical_key k in
    elim (load key h) [ some vs ↦ store key (vs ++ (v ∷ [])) h | none ↦ store key (v ∷ []) h ]

unfoldable pub header_del : Str → Header → Header
unfolding delete canonical_key
header_del k h = delete (canonical_key k) h

-- The status line and headers as they were when WriteHeader sent them.
pub record Sent : Type 0 where
  pub status : ℕ
  pub header : Header

-- A writer put in front of another one, which notes the status of each WriteHeader and the bytes of
-- each Write, and passes the calls on.
pub record Recorder : Type 0 where
  pub status_code : ℕ
  pub recorded : Str

-- A response writer: the header map that handlers change, what has been sent, and the body; and the
-- recorders in front of it, the outermost at the end.
pub record Writer : Type 0 where
  pub header : Header
  pub sent : Option Sent
  pub body : Str
  pub recorders : List Recorder

abbrev pub new_writer : Writer
new_writer = record { header = []; sent = none; body = []; recorders = [] }

-- Only the first status counts.
send : ℕ → Writer → Writer
send code w = elim w.sent [
  | none ↦ record w { sent = some (record { status = code; header = w.header }) }
  | some _ ↦ w
]

note_status : ℕ → List Recorder → List Recorder
note_status code [] = []
note_status code (r ∷ rs) = record r { status_code = code } ∷ note_status code rs

note_bytes : Str → List Recorder → List Recorder
note_bytes bytes [] = []
note_bytes bytes (r ∷ rs) = record r { recorded = r.recorded ++ bytes } ∷ note_bytes bytes rs

unfoldable pub write_header : ℕ → Writer → Writer
unfolding send note_status
write_header code w = let w' = send code w in record w' { recorders = note_status code w.recorders }

-- A Write sends status 200 first, if none was sent; the recorders do not see that.
unfoldable pub write : Str → Writer → Writer
unfolding send note_bytes
write bytes w =
    let w' = send 200 w in
    record w' { body = w'.body ++ bytes; recorders = note_bytes bytes w.recorders }

-- Flush sends status 200, if none was sent. What is in the buffer is not told apart from what was sent.
unfoldable pub flush : Writer → Writer
unfolding send
flush w = send 200 w

-- `&responseRecorder{ResponseWriter: w, statusCode: http.StatusOK}` and the like
unfoldable pub record_calls : Writer → Writer
record_calls w = record w {
  recorders = w.recorders ++ (record { status_code = 200; recorded = [] } ∷ []);
}

unfoldable pub on_header : (Header → Header) → Writer → Writer
on_header f w = record w { header = f w.header }

-- http.Error
unfoldable pub http_error : Str → ℕ → Writer → Writer
unfolding on_header header_set header_del write write_header
http_error message code w =
    let w1 = on_header (header_del (codes "Content-Length")) w in
    let w2 = on_header (header_set (codes "Content-Type") (codes "text/plain; charset=utf-8")) w1 in
    let w3 = on_header (header_set (codes "X-Content-Type-Options") (codes "nosniff")) w2 in
    write (message ++ (10 ∷ [])) (write_header code w3)
