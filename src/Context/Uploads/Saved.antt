-- ===== src/Context/Uploads/Saved.antt =====
-- What SaveFile leaves on the disk.
use amaro.Prelude.{Str, ◌≡◌, ◌≢◌, ◌⊎◌, inl, inr, refl, some, [], if◌then◌else◌}
use amaro.Errors.{Error, nil, plain, http, is_nil}
use amaro.Context.Uploads.{Upload, Disk, go_on, copy_upload, save_file}

-- What holds of a failed call, and of what follows one that did not fail, holds of both.
go_on-rule :
    {D : Type 0} (P : Error × D → Type 0) (o : Error × D) (next : D → Error × D)
    → (o.0 ≡ nil → P (next o.1))
    → (o.0 ≢ nil → P o)
    → P (go_on o next)
go_on-rule P (nil, d) next h k = h refl
go_on-rule P (plain s, d) next h k = k (λ e. cc)
go_on-rule P (http code message internal, d) next h k = k (λ e. cc)

module _ {D : Type 0} (disk : Disk D) (dir : Str → Str) where
  -- There is an error, or `dst` has the bytes of the upload and the reader ended without an error.
  abbrev IsSaved : Upload → Str → Error × D → Type 0
  IsSaved file dst o =
      (o.0 ≢ nil)
      ⊎ ((disk.content dst o.1 ≡ some file.bytes)
          × (file.read_error ≡ nil)
          × (file.open_error ≡ nil))

  copied :
      (file : Upload) (dst : Str) (d : D)
      → file.open_error ≡ nil
      → disk.content dst d ≡ some []
      → IsSaved file dst (copy_upload disk dir file dst d)
  copied file dst d opened e =
      by_error (disk.write_all dst file.bytes d).0 file.read_error
        (disk.content_write_all dst file.bytes d e)
    where
      by_error :
          {A : Type 0} (err read : Error)
          → (err ≡ nil → A)
          → ((if is_nil err then read else err) ≢ nil)
            ⊎ (A × (read ≡ nil) × (file.open_error ≡ nil))
      by_error nil nil h = inr (h refl, refl, opened)
      by_error nil (plain t) h = inl (λ e. cc)
      by_error nil (http code message internal) h = inl (λ e. cc)
      by_error (plain t) read h = inl (λ e. cc)
      by_error (http code message internal) read h = inl (λ e. cc)

  -- SaveFile returns an error, or the upload could be opened and read to its end and the file that
  -- SaveFile is told to write has the bytes of the upload and no others, whatever was in it before.
  pub save_file-stored :
      (file : Upload) (dst : Str) (d : D)
      → ((save_file disk dir file dst d).0 ≢ nil)
        ⊎ ((disk.content dst (save_file disk dir file dst d).1 ≡ some file.bytes)
            × (file.read_error ≡ nil)
            × (file.open_error ≡ nil))
  unfolding save_file
  save_file-stored file dst d =
      let P = IsSaved file dst in
      let last = copy_upload disk dir file dst in
      let second = λ (d : D). go_on (disk.create dst d) last in
      let first = λ (d : D). go_on (disk.mkdir_all (dir dst) d) second in
      let made = disk.mkdir_all (dir dst) d in
      go_on-rule P (file.open_error, d) first
        (λ opened.
          go_on-rule P made second
            (λ ok.
              go_on-rule P (disk.create dst made.1) last
                (λ ok'.
                  copied file dst (disk.create dst made.1).1 opened
                    (disk.content_create dst made.1 ok'))
                inl)
            inl)
        inl
