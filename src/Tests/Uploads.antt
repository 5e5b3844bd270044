-- ===== src/Tests/Uploads.antt =====
-- An upload that is saved on a disk that never fails, and a server that is shut down.
use amaro.Prelude.{◌≡◌, ◌≢◌, ◌⊎◌, refl, ap, ◌∙◌, [], ◌∷◌, ◌++◌, Option, none, some, Str, codes}
use amaro.Prelude.Assoc.{Assoc, load, store, load-store_self}
use amaro.Errors.{nil}
use amaro.Strings.{has_prefix}
use amaro.Context.Uploads.{Upload, Disk, save_file}
use amaro.Context.Uploads.Saved.{save_file-stored}
use amaro.App.Server.{shut_down, run}

abbrev or_empty : Option Str → Str
or_empty none = []
or_empty (some s) = s

abbrev files : Disk (Assoc Str)
files = record {
  mkdir_all = λ dir d. (nil, d);
  create = λ name d. (nil, store name [] d);
  write_all = λ name bytes d. (nil, store name (or_empty (load name d) ++ bytes) d);
  content = load;
  content_create = λ name d e. load-store_self name [] d;
  content_write_all = λ name bytes d e n.
      ap (λ v. load name (store name (or_empty v ++ bytes) d)) e ∙ load-store_self name bytes d;
}

abbrev photo : Upload
photo = record { open_error = nil; bytes = codes "jpeg"; read_error = nil }

abbrev uploads : Str → Str
uploads path = codes "uploads"

abbrev saved_as : Str
saved_as = codes "uploads/1.jpg"

-- The file is there already, with another content.
abbrev old_files : Assoc Str
old_files = (saved_as, codes "an older picture") ∷ []

save_file-stored_example :
    ((save_file files uploads photo saved_as old_files).0 ≢ nil)
    ⊎ ((load saved_as (save_file files uploads photo saved_as old_files).1 ≡ some (codes "jpeg"))
        × (photo.read_error ≡ nil)
        × (photo.open_error ≡ nil))
save_file-stored_example = save_file-stored files uploads photo saved_as old_files

-- A host in front of the port is not an address any more.
colon_added :
    run (λ err. []) (shut_down nil) (codes "localhost:80")
    ≡ (nil, record { address = codes ":localhost:80"; certificate = none })
unfolding run has_prefix
colon_added = refl
