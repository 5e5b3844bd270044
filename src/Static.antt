-- ===== src/Static.antt =====
-- static.go: StaticHandler over a file system. Parameters: the file system's Open, what a file's Stat
-- returns, whether a file can seek, and what http.ServeContent does to the response. A file of the
-- file system is an `F`; that it is closed at the end is not modelled.
pub mod Paths
pub mod Confined
use amaro.Prelude.{
  ℕ, Bool, true, false, ◌||◌, [], ◌∷◌, Option, none, some, Str, codes, str_eq, is_empty,
  if◌then◌else◌,
}
use amaro.Strings.{starts_with_byte, trim_right, trim_prefix}
use amaro.Errors.{string, Error, nil, plain, is_nil, new_http_error, set_internal}
use amaro.Http.{Request, Writer}
use amaro.Context.{Act, Handler, ◌>>=◌, ◌>>◌, pure, the_request, on_writer}
use amaro.Static.Paths.{clean, join_path}

-- What Open and Stat return: with an error comes whether os.IsNotExist holds of it.
pub data FileResult (A : Type 0) : Type 0 where
  file_ok : A → FileResult A
  file_error : (not_exist : Bool) → (message : Str) → FileResult A

pub record FileInfo : Type 0 where
  pub name : Str
  pub mod_time : ℕ
  pub is_dir : Bool

-- The root is its Open.
pub record StaticConfig (F S : Type 0) : Type 0 where
  pub root : Str → FileResult F
  pub prefix : Str
  pub index : Str
  pub browse : Bool
  pub spa : Bool
  pub modify_response : Option (Act S (Unit {0}))

unfoldable pub normal_prefix : Str → Str
unfolding starts_with_byte trim_right
normal_prefix prefix =
    if is_empty prefix
    then []
    else trim_right b'/' (if starts_with_byte b'/' prefix then prefix else b'/' ∷ prefix)

abbrev pub default_index : Str → Str
default_index index = if is_empty index then codes "index.html" else index

-- What is left of the URL's path, behind a normal prefix.
unfoldable pub behind_prefix : Str → Str → Str
unfolding trim_prefix
behind_prefix prefix path = if is_empty prefix then path else trim_prefix prefix path

-- The name that is opened.
unfoldable pub file_path : Str → Str
unfolding clean str_eq trim_prefix
file_path rest =
    let cleaned = clean rest in
    trim_prefix (codes "/")
      (if str_eq cleaned (codes ".") || str_eq cleaned (codes "/") then [] else cleaned)

-- The call of ModifyResponse, if there is one.
abbrev pub modify : {S : Type 0} → Option (Act S (Unit {0})) → Act S (Unit {0})
modify none = pure tt
modify (some m) = m

module _ {F S : Type 0} (stat : F → FileResult FileInfo) (can_seek : F → Bool)
    (http_content : Str → ℕ → F → Request → Writer → Writer) where
  serve_content : Str → ℕ → F → Act S Error
  unfolding the_request on_writer
  serve_content name mod_time file =
      if can_seek file
      then (do r ← the_request; on_writer (http_content name mod_time file r); pure nil)
      else pure (plain (codes "file does not support seeking"))

  serve_file : (Str → FileResult F) → Str → Act S Error
  unfolding serve_content
  serve_file root name = elim (root name) [
    | file_error _ err ↦ pure (plain err)
    | file_ok file ↦ elim (stat file) [
      | file_error _ err ↦ pure (plain err)
      | file_ok info ↦ serve_content info.name info.mod_time file
    ]
  ]

  -- `indexFunc`: an error of the index file's Stat is not the error that it returns.
  serve_index : StaticConfig F S → Str → Act S Error
  unfolding serve_content join_path
  serve_index config name = elim (config.root (join_path name config.index)) [
    | file_error _ err ↦ pure (plain err)
    | file_ok file ↦ elim (stat file) [
      | file_error _ _ ↦ pure nil
      | file_ok info ↦ serve_content config.index info.mod_time file
    ]
  ]

  serve_directory : StaticConfig F S → Str → Act S Error
  unfolding serve_index serve_file new_http_error
  serve_directory config name = do
    err ← serve_index config name
    if is_nil err
        then pure nil
        else if config.browse
        then pure (new_http_error 403 (string (codes "Directory Listing Forbidden") ∷ []))
        else if config.spa
        then serve_file config.root config.index
        else pure (new_http_error 404 (string (codes "File Not Found") ∷ []))

  -- What Open returned is served, and before that what Stat did.
  serve_stated : StaticConfig F S → Str → F → FileResult FileInfo → Act S Error
  unfolding serve_directory serve_content
  serve_stated config name file (file_error _ err) = pure (plain err)
  serve_stated config name file (file_ok info) =
      if info.is_dir
      then serve_directory config name
      else serve_content info.name info.mod_time file

  serve_opened : StaticConfig F S → Str → FileResult F → Act S Error
  unfolding serve_file serve_stated new_http_error set_internal
  serve_opened config name (file_error true err) =
      if config.spa
      then serve_file config.root config.index
      else pure
          (set_internal (new_http_error 404 (string (codes "File Not Found") ∷ [])) (plain err))
  serve_opened config name (file_error false err) = pure (plain err)
  serve_opened config name (file_ok file) = serve_stated config name file (stat file)

  unfoldable pub static_handler : StaticConfig F S → Handler S
  unfolding serve_opened file_path behind_prefix normal_prefix the_request
  static_handler config =
      let config' = record config {
        index = default_index config.index;
        prefix = normal_prefix config.prefix;
      } in
      do
        modify config.modify_response
        r ← the_request
        let name = file_path (behind_prefix config'.prefix r.path) in
            serve_opened config' name (config'.root name)
