-- ===== src/Tests.antt =====
-- Runs of the model on small inputs, and the theorems applied to them: the data that these share.
pub mod Router
pub mod Serving
pub mod Access
pub mod Responses
pub mod Caching
pub mod Binding
pub mod Files
pub mod Login
pub mod Pages
pub mod Streams
pub mod Documents
pub mod Timeouts
pub mod Compressed
pub mod Uploads
use amaro.Prelude.{ℕ, suc, Bool, true, false, List, [], ◌∷◌, Option, none, some, Str, codes}
use amaro.Errors.{Any, string, Error, nil, plain}
use amaro.Http.{Request, Writer, new_writer}
use amaro.Http.Method
use amaro.Context.{Context, returned, panicked, Act, Handler, Middleware, write_string}
use amaro.Trie.{TrieRouter, new_trie_router, add}

-- The memory that the handlers share is a count of the calls.
abbrev pub hello : Handler ℕ
hello c s = returned nil c (suc s)

abbrev pub greeting : Handler ℕ
unfolding write_string
greeting = write_string 200 (codes "hello")

abbrev pub crash : Handler ℕ
crash c s = panicked (string (codes "boom")) c s

abbrev pub twice : Middleware ℕ
twice next c s = next c (suc (suc s))

abbrev pub asks : Str → Str → Request
asks method path = record {
  method = method;
  path = path;
  header = [];
  query = [];
  cookies = [];
  remote_addr = codes "10.0.0.1";
  tls = false;
}

abbrev pub context_of : Request → Context
context_of r = record { request = some r; writer = some new_writer; params = []; keys = none }

abbrev pub idle : Context
idle = context_of (asks Method.get (codes "/"))

abbrev pub empty_router : TrieRouter ℕ
unfolding new_trie_router
empty_router = new_trie_router []

abbrev pub users_path : Str
users_path = codes "/users/:id"

abbrev pub files_path : Str
files_path = codes "/files/*filepath"

-- Routes for one user and for all files.
abbrev pub with_users : TrieRouter ℕ
unfolding add new_trie_router
with_users = (add Method.get users_path hello [] empty_router).1

abbrev pub with_files : TrieRouter ℕ
unfolding add new_trie_router
with_files = (add Method.get files_path greeting [] with_users).1
