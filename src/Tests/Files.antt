-- ===== src/Tests/Files.antt =====
-- A file system with one file in one directory.
use amaro.Prelude.{
  ℕ, ◌≡◌, refl, sym, ap, subst, ◌∙◌, inl, inr, Bool-cases, str_eq_sound, arith, Bool, true, false,
  List, [], ◌∷◌, none, Str, codes, str_eq, if◌then◌else◌, All,
}
use amaro.Strings.{join, split}
use amaro.Strings.Parts.{parts, nonempty}
use amaro.Http.{Request, Writer, write}
use amaro.Http.Method
use amaro.Context.{Context}
use amaro.Static.{
  FileResult, file_ok, file_error, FileInfo, StaticConfig, behind_prefix, normal_prefix,
  static_handler,
}
use amaro.Static.Paths.{clean, join_path}
use amaro.Static.Paths.Names.{IsPlain, parts-plain}
use amaro.Static.Confined.{goes_on, static_handler-confined}
use amaro.Tests.{asks, context_of}

-- A file is its name and its text; a directory has none.
abbrev File : Type 0
File = Str × Str

abbrev opened : Str → FileResult File
unfolding str_eq
opened name =
    if str_eq name (codes "css/site.css")
    then file_ok (codes "site.css", codes "p {}")
    else if str_eq name (codes "css")
    then file_ok (codes "css", [])
    else file_error true (codes "file does not exist")

abbrev stat_of : File → FileResult FileInfo
stat_of (name, []) = file_ok (record { name = name; mod_time = 0; is_dir = true })
stat_of (name, contents) = file_ok (record { name = name; mod_time = 0; is_dir = false })

abbrev seeks : File → Bool
seeks file = true

abbrev send_file : Str → ℕ → File → Request → Writer → Writer
unfolding write
send_file name mod_time (_, contents) r = write contents

abbrev assets : StaticConfig File ℕ
assets = record {
  root = opened;
  prefix = codes "assets/";
  index = [];
  browse = false;
  spa = false;
  modify_response = none;
}

abbrev for_site : Context
for_site = context_of (asks Method.get (codes "/assets/css/../css/site.css"))

index-IsPlain : IsPlain (codes "index.html")
unfolding str_eq
index-IsPlain = record {
  not_empty = λ e. cc e;
  not_here = refl;
  not_up = refl;
  one_element = ground arith;
}

-- The same files, and one outside.
abbrev opened_outside : Str → FileResult File
unfolding str_eq
opened_outside name =
    if str_eq name (codes "../secret")
    then file_ok (codes "secret", codes "hidden")
    else opened name

outside-not_plain : (ps : List Str) → All IsPlain ps → join (codes "/") ps ≡ codes "../secret" → ⊥
unfolding parts split nonempty str_eq
outside-not_plain ps h e =
    let same : codes ".." ∷ codes "secret" ∷ [] ≡ ps = sym (ap (parts b'/') e) ∙ parts-plain ps h in
    cc (subst (λ x. All IsPlain x) (sym same) h).0.not_up

agrees :
    (ps : List Str)
    → All IsPlain ps
    → opened (join (codes "/") ps) ≡ opened_outside (join (codes "/") ps)
unfolding opened_outside
agrees ps h = elim (Bool-cases (str_eq (join (codes "/") ps) (codes "../secret"))) [
  | inl e ↦ absurd (outside-not_plain ps h (str_eq_sound _ _ e))
  | inr e ↦ ground (arith, e)
]

static_handler-confined_example :
    static_handler stat_of seeks send_file assets for_site 5
    ≡ static_handler stat_of seeks send_file (record assets { root = opened_outside }) for_site 5
unfolding goes_on normal_prefix behind_prefix
static_handler-confined_example =
    static_handler-confined stat_of seeks send_file assets opened_outside for_site for_site 5 5
      agrees index-IsPlain refl refl refl

cleans : clean (codes "/a/./b//../c/../../../d") ≡ codes "/d"
unfolding clean
cleans = refl

cleans_upwards : clean (codes "../a/../../b") ≡ codes "../../b"
unfolding clean
cleans_upwards = refl

joins : join_path (codes "css") (codes "index.html") ≡ codes "css/index.html"
unfolding join_path
joins = refl
