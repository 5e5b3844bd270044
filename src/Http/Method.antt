-- ===== src/Http/Method.antt =====
-- http.MethodGet and the others.
use amaro.Prelude.{Str, codes, List, [], ◌∷◌}

abbrev pub get : Str
get = codes "GET"

abbrev pub post : Str
post = codes "POST"

abbrev pub put : Str
put = codes "PUT"

abbrev pub delete : Str
delete = codes "DELETE"

abbrev pub patch : Str
patch = codes "PATCH"

abbrev pub options : Str
options = codes "OPTIONS"

abbrev pub head : Str
head = codes "HEAD"

-- The list that Any goes through.
abbrev pub standard : List Str
standard = get ∷ post ∷ put ∷ delete ∷ patch ∷ options ∷ head ∷ []

-- The methods that have a function of their own: GET, POST, PUT, DELETE, PATCH, OPTIONS and HEAD.
pub data Verb : Type 0 where
  get_verb : Verb
  post_verb : Verb
  put_verb : Verb
  delete_verb : Verb
  patch_verb : Verb
  options_verb : Verb
  head_verb : Verb

abbrev pub name : Verb → Str
name get_verb = get
name post_verb = post
name put_verb = put
name delete_verb = delete
name patch_verb = patch
name options_verb = options
name head_verb = head

abbrev pub verbs : List Verb
verbs = get_verb ∷ post_verb ∷ put_verb ∷ delete_verb ∷ patch_verb ∷ options_verb ∷ head_verb ∷ []
