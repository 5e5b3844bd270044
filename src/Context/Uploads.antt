-- ===== src/Context/Uploads.antt =====
-- FormFile and SaveFile of context.go. Parameters: Request.FormFile, and a disk with what package os
-- does to the files on it.
pub mod Saved
use amaro.Prelude.{Str, ◌≡◌, ◌≢◌, Option, some, [], ◌++◌, if◌then◌else◌}
use amaro.Errors.{Error, nil, is_nil}
use amaro.Http.{Request}
use amaro.Context.{Act, ◌>>=◌, pure, the_request}

-- What file.Open returns, and how far io.Copy gets with it: the bytes that are read, and the error that
-- reading ends with.
pub record Upload : Type 0 where
  pub open_error : Error
  pub bytes : Str
  pub read_error : Error

-- MkdirAll, Create, and the writes to a file that Create opened, with the content of the files. The laws
-- are those of regular files that nobody else writes to meanwhile: Create leaves the file empty, and
-- what is written to the empty file is its content. Nothing is said of files under other names, which
-- may be the same file.
pub record Disk (D : Type 0) : Type 0 where
  pub mkdir_all : Str → D → Error × D
  pub create : Str → D → Error × D
  pub write_all : Str → Str → D → Error × D
  pub content : Str → D → Option Str
  pub content_create :
      (name : Str) (d : D) → (create name d).0 ≡ nil → content name (create name d).1 ≡ some []
  pub content_write_all :
      (name bytes : Str) (d : D)
      → content name d ≡ some []
      → (write_all name bytes d).0 ≡ nil
      → content name (write_all name bytes d).1 ≡ some bytes

-- Request.FormFile, whose file is not passed on.
unfoldable pub form_file :
    {S File : Type 0} → (Request → Str → Option File × Error) → Str → Act S (Option File × Error)
unfolding the_request
form_file request_file name = do r ← the_request; pure (request_file r name)

-- Go on unless there is an error.
abbrev go_on : {D : Type 0} → Error × D → (D → Error × D) → Error × D
go_on (err, d) next = if is_nil err then next d else (err, d)

module _ {D : Type 0} (disk : Disk D) (dir : Str → Str) where
  -- io.Copy: an error of the writer comes before one of the reader.
  abbrev copy_upload : Upload → Str → D → Error × D
  copy_upload file dst d =
      let (err, d') = disk.write_all dst file.bytes d in
      (if is_nil err then file.read_error else err, d')

  -- SaveFile; `dir` is filepath.Dir. What Close returns is not looked at.
  unfoldable pub save_file : Upload → Str → D → Error × D
  unfolding go_on copy_upload
  save_file file dst d =
      go_on (file.open_error, d)
        (λ d.
          go_on (disk.mkdir_all (dir dst) d)
            (λ d. go_on (disk.create dst d) (copy_upload file dst)))
