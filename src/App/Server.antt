-- ===== src/App/Server.antt =====
-- Run, RunTLS and startServer of amaro.go, and what the App hands on: Group, StaticFS, Static and
-- Test. Parameters: the listener's error, the signal and the error of Shutdown; the text of an error
-- inside another; and the router's Group and StaticFS.
use amaro.Prelude.{not, ◌&&◌, [], ◌++◌, Option, none, some, Str, codes, is_empty, if◌then◌else◌}
use amaro.Errors.{Error, nil, plain, is_nil}
use amaro.Strings.{has_prefix}
use amaro.Http.{Request, new_writer}
use amaro.Context.{Outcome}
use amaro.Routing.{Router}
use amaro.App.{App, serve_http}

-- How the server listens: at an address, and with a certificate and a key or without.
pub record Listening : Type 0 where
  pub address : Str
  pub certificate : Option (Str × Str)

-- What the select receives: the error with which the listener ended, or a signal, for which the server
-- is shut down with an error or without.
pub data ServerEvent : Type 0 where
  listener_ended : Error → ServerEvent
  shut_down : Error → ServerEvent

-- The colon that an address starts with.
abbrev with_colon : Str → Str
unfolding has_prefix
with_colon address = if has_prefix (codes ":") address then address else codes ":" ++ address

unfoldable pub start_server : (Error → Str) → ServerEvent → Str → Str → Str → Error × Listening
unfolding with_colon
start_server text event address cert_file key_file =
    let listening : Listening = record {
      address = with_colon address;
      certificate =
          if not (is_empty cert_file) && not (is_empty key_file)
          then some (cert_file, key_file)
          else none;
    } in
    elim event [
      | listener_ended err ↦ (plain (codes "server error: " ++ text err), listening)
      | shut_down err ↦ (
        if is_nil err then nil else plain (codes "could not stop server gracefully: " ++ text err),
        listening,
      )
    ]

unfoldable pub run : (Error → Str) → ServerEvent → Str → Error × Listening
unfolding start_server
run text event address = start_server text event address [] []

unfoldable pub run_tls : (Error → Str) → ServerEvent → Str → Str → Str → Error × Listening
unfolding start_server
run_tls = start_server

module _ {S R FileSystem : Type 0} where
  unfoldable pub app_static_fs : (Str → FileSystem → R → R) → Str → FileSystem → App S R → App S R
  app_static_fs static_fs path_prefix fs a = record a { router = static_fs path_prefix fs a.router }

  -- `dir_fs` is os.DirFS.
  unfoldable pub app_static :
      (Str → FileSystem → R → R) → (dir_fs : Str → FileSystem) → Str → Str → App S R → App S R
  unfolding app_static_fs
  app_static static_fs dir_fs path_prefix root a =
      app_static_fs static_fs path_prefix (dir_fs root) a

-- Group, on the router's Group.
unfoldable pub app_group : {S R G : Type 0} → (group : Str → R → G) → Str → App S R → G
app_group group prefix a = group prefix a.router

-- Test: a request is served to a recorder.
unfoldable pub test_request :
    {S R : Type 0} → Router S R → Request → App S R → S → Outcome S (Unit {0}) × App S R
unfolding serve_http
test_request ops req a s = serve_http ops new_writer req a s
