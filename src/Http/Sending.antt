-- ===== src/Http/Sending.antt =====
-- What a response writer has sent.
use amaro.Prelude.{ℕ, ◌≡◌, ◌++◌, none, some, Str, arith}
use amaro.Http.{Header, Writer, send, write_header, write, flush}

pub write-write_header_sent :
    (code : ℕ) (bytes : Str) (w : Writer)
    → w.sent ≡ none
    → (write bytes (write_header code w)).sent ≡ some (record { status = code; header = w.header })
unfolding write write_header send
write-write_header_sent code bytes w h = ground (arith, h)

pub write-write_header_body :
    (code : ℕ) (bytes : Str) (w : Writer)
    → (write bytes (write_header code w)).body ≡ w.body ++ bytes
unfolding write write_header send
write-write_header_body code bytes w = ground arith

pub write-body : (bytes : Str) (w : Writer) → (write bytes w).body ≡ w.body ++ bytes
unfolding write send
write-body bytes w = ground arith

pub flush-body : (w : Writer) → (flush w).body ≡ w.body
unfolding flush send
flush-body w = ground arith

pub write_header-body : (code : ℕ) (w : Writer) → (write_header code w).body ≡ w.body
unfolding write_header send
write_header-body code w = ground arith

-- The header that the client gets: what has been sent, or what the server sends at the end.
abbrev pub told : Writer → Header
told w = elim w.sent [ none ↦ w.header | some sent ↦ sent.header ]

-- The same header map, and the same header for the client.
abbrev pub HasHeaders : Writer → Writer → Type 0
HasHeaders v w = (v.header ≡ w.header) × (told v ≡ told w)

pub write_header-HasHeaders : (code : ℕ) (w : Writer) → HasHeaders (write_header code w) w
unfolding write_header send
write_header-HasHeaders code w = (ground arith, ground arith)

pub write-HasHeaders : (bytes : Str) (w : Writer) → HasHeaders (write bytes w) w
unfolding write send
write-HasHeaders bytes w = (ground arith, ground arith)

pub flush-HasHeaders : (w : Writer) → HasHeaders (flush w) w
unfolding flush send
flush-HasHeaders w = (ground arith, ground arith)
