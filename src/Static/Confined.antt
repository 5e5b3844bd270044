-- ===== src/Static/Confined.antt =====
-- Which names the static handler opens.
use amaro.Prelude.{
  ℕ, ◌≡◌, refl, ap, subst, sym, ◌∙◌, Bool, true, false, ◌||◌, List, [], ◌∷◌, ◌++◌, some, Str, codes,
  str_eq, is_empty, if◌then◌else◌, All, All-append, arith,
}
use amaro.Strings.{join, starts_with_byte, trim_prefix, after_prefix, split}
use amaro.Strings.Parts.{parts, nonempty}
use amaro.Errors.{plain, string, new_http_error, set_internal}
use amaro.Http.{Request, Writer}
use amaro.Context.{Context, returned, the_request, pure}
use amaro.Static.Paths.{clean, join_path}
use amaro.Static.Paths.Names.{IsPlain, names, names-IsPlain, clean-rooted, join_path-plain}
use amaro.Static.{
  FileResult, file_ok, file_error, FileInfo, StaticConfig, modify, default_index, normal_prefix,
  behind_prefix, file_path, serve_content, serve_file, serve_index, serve_directory, serve_stated,
  serve_opened, static_handler,
}

-- The path is a directory's own, or goes on behind a slash.
unfoldable pub goes_on : Str → Bool
unfolding starts_with_byte
goes_on rest = is_empty rest || starts_with_byte b'/' rest

-- What is opened for a cleaned path that begins with a slash.
opened-rooted : (rest name : Str) → clean rest ≡ b'/' ∷ name → file_path rest ≡ name
unfolding file_path trim_prefix after_prefix str_eq
opened-rooted rest [] h = ground (arith, h)
opened-rooted rest (c ∷ name) h = ground (arith, h)

-- The name of the path's file.
file_path-names :
    (rest : Str)
    → goes_on rest ≡ true
    → (ps : List Str) × (All IsPlain ps × (file_path rest ≡ join (codes "/") ps))
unfolding goes_on file_path clean trim_prefix after_prefix str_eq join starts_with_byte parts
    nonempty split
file_path-names [] h = ([], (tt, refl))
file_path-names (c ∷ rest) h = (
  names (c ∷ rest),
  (
    names-IsPlain (c ∷ rest) h,
    opened-rooted (c ∷ rest) (join (codes "/") (names (c ∷ rest))) (clean-rooted (c ∷ rest) h),
  ),
)

module _ {F S : Type 0} (stat : F → FileResult FileInfo) (can_seek : F → Bool)
    (http_content : Str → ℕ → F → Request → Writer → Writer) where
  serve_file-same :
      (root other_root : Str → FileResult F) (name : Str)
      → root name ≡ other_root name
      → serve_file {S = S} stat can_seek http_content root name
        ≡ serve_file stat can_seek http_content other_root name
  unfolding serve_file
  serve_file-same root other_root name e = rw (serve_file, e)

  serve_index-same :
      (config : StaticConfig F S) (other_root : Str → FileResult F) (name : Str)
      → config.root (join_path name config.index) ≡ other_root (join_path name config.index)
      → serve_index stat can_seek http_content config name
        ≡ serve_index stat can_seek http_content (record config { root = other_root }) name
  unfolding serve_index
  serve_index-same config other_root name e = rw (serve_index, e)

  serve_directory-same :
      (config : StaticConfig F S) (other_root : Str → FileResult F) (name : Str)
      → config.root (join_path name config.index) ≡ other_root (join_path name config.index)
      → config.root config.index ≡ other_root config.index
      → serve_directory stat can_seek http_content config name
        ≡ serve_directory stat can_seek http_content (record config { root = other_root }) name
  unfolding serve_directory
  serve_directory-same config other_root name in_directory at_root = rw (
    serve_directory,
    serve_index-same config other_root name in_directory,
    serve_file-same config.root other_root config.index at_root,
  )

  serve_stated-same :
      (config : StaticConfig F S) (other_root : Str → FileResult F) (name : Str) (file : F)
      → config.root (join_path name config.index) ≡ other_root (join_path name config.index)
      → config.root config.index ≡ other_root config.index
      → (stated : FileResult FileInfo)
      → serve_stated stat can_seek http_content config name file stated
        ≡ serve_stated stat can_seek http_content
            (record config { root = other_root })
            name
            file
            stated
  unfolding serve_stated
  serve_stated-same config other_root name file in_directory at_root (file_error _ err) = refl
  serve_stated-same config other_root name file in_directory at_root (file_ok info) =
      ap
        (λ directory.
          if info.is_dir
          then directory
          else serve_content stat can_seek http_content info.name info.mod_time file)
        (serve_directory-same config other_root name in_directory at_root)

  serve_opened-same :
      (config : StaticConfig F S) (other_root : Str → FileResult F) (name : Str)
      → config.root (join_path name config.index) ≡ other_root (join_path name config.index)
      → config.root config.index ≡ other_root config.index
      → (opened : FileResult F)
      → serve_opened stat can_seek http_content config name opened
        ≡ serve_opened stat can_seek http_content (record config { root = other_root }) name opened
  unfolding serve_opened
  serve_opened-same config other_root name in_directory at_root (file_error false err) = refl
  serve_opened-same config other_root name in_directory at_root (file_error true err) =
      ap
        (λ index.
          if config.spa
          then index
          else pure (
              set_internal (new_http_error 404 (string (codes "File Not Found") ∷ [])) (plain err)))
        (serve_file-same config.root other_root config.index at_root)
  serve_opened-same config other_root name in_directory at_root (file_ok file) =
      serve_stated-same config other_root name file in_directory at_root (stat file)

  -- Where the config's index is a plain name, and the request's path ends with the prefix or goes on
  -- behind it with a slash: the static handler opens no names but those that are plain elements
  -- joined by slashes, and so none with an empty element, "." or "..". That is, its result is the
  -- same on every two file systems that agree on those names.
  pub static_handler-confined :
      (config : StaticConfig F S) (other_root : Str → FileResult F) (c c' : Context) (s s' : S)
      {r : Request}
      → ((ps : List Str)
          → All IsPlain ps
          → config.root (join (codes "/") ps) ≡ other_root (join (codes "/") ps))
      → IsPlain (default_index config.index)
      → modify config.modify_response c s ≡ returned tt c' s'
      → c'.request ≡ some r
      → goes_on (behind_prefix (normal_prefix config.prefix) r.path) ≡ true
      → static_handler stat can_seek http_content config c s
        ≡ static_handler stat can_seek http_content (record config { root = other_root }) c s
  unfolding static_handler the_request
  static_handler-confined config other_root c c' s s' {r} agree plain_index modified has_request
        behind =
      let config' = record config {
        index = default_index config.index;
        prefix = normal_prefix config.prefix;
      } in
      let path = file_path (behind_prefix config'.prefix r.path) in
      let (ps, (h, e)) = file_path-names (behind_prefix config'.prefix r.path) behind in
      let at_name = subst (λ n. config.root n ≡ other_root n) (sym e) (agree ps h) in
      let in_directory =
        subst (λ n. config.root n ≡ other_root n)
          (sym (
            ap (λ n. join_path n config'.index) e ∙ join_path-plain ps config'.index h plain_index))
          (agree (ps ++ (config'.index ∷ []))
            (All-append IsPlain ps (config'.index ∷ []) h (plain_index, tt))) in
      let at_root = agree (config'.index ∷ []) (plain_index, tt) in
      let run = serve_opened-same config' other_root path in_directory at_root (other_root path) in
      ground (arith, modified, has_request, at_name, ap (λ act. act c' s') run)
