-- ===== src/Ipkg/Executor/Packed.antt =====
-- What the executors that pack leave, whether they return or raise.
use smart_build.Prelude.{
  ℕ, Bool, true, false, List, Option, none, some, ◌≡◌, refl, ap, ◌⊎◌, inl, inr, leb, ltb, length,
  arith, Bool-cases,
}
use smart_build.Prelude.Errors.{Result, ok, err}
use smart_build.Prelude.Codes.{Text, Bytes}
use smart_build.Ipkg.Base.{IpkgError}
use smart_build.Ipkg.Package.{Formats, PackageFile, create_ipkg}
use smart_build.Ipkg.Sources.{
  Disk, InstallItem, Output, missing, symlink_there, other_there, plain, expand_files,
  prepare_package_output,
}
use smart_build.Ipkg.Executor.{
  PackageManifest, Packing, Writing, whole, broken, put_package, control_fields, cleared_output,
  cleared, with_files, build_files, packed, files_line, files_ipkg_executor, app_line, app_files,
  pack_app, ipkg_executor,
}

-- what may be replaced: nothing, or a file with no other link
abbrev pub is_replaceable : Output → Bool
is_replaceable missing = true
is_replaceable symlink_there = false
is_replaceable other_there = false
is_replaceable (plain links content) = leb links 1

module _ (f : Formats) (disk : Disk) (checksum : Bytes → Text) (writing : Bytes → Writing)
    (m : PackageManifest) (pick : List PackageFile → List PackageFile) where
  -- An executor that returns replaced what it may, by the whole package of the files, and noted its
  -- checksum. One that raises left what stood there; or it took away what it may replace, and left
  -- nothing, or, where the write of the package of the files raised, what that write left. It noted
  -- no checksum and wrote no line.
  abbrev pub Packs : Packing → Packing × Result IpkgError ℕ → Type 0
  Packs p (q, ok code) =
      (code ≡ 0)
      × (is_replaceable p.output ≡ true)
      × ((archive : Bytes) × (create_ipkg f disk.bytes (control_fields m) (pick q.files)
            ≡ ok archive)
          × (writing archive ≡ whole)
          × (q.output ≡ plain 1 archive)
          × (q.checksum ≡ some (checksum archive)))
  Packs p (q, err e) =
      ((q.output ≡ p.output)
        ⊎ (is_replaceable p.output ≡ true)
          × ((q.output ≡ missing)
              ⊎ ((archive : Bytes) × (create_ipkg f disk.bytes (control_fields m) (pick q.files)
                    ≡ ok archive)
                  × (writing archive ≡ broken q.output))))
      × (q.checksum ≡ p.checksum)
      × (q.log ≡ p.log)

  -- the old package is gone, and nothing else is changed but the files
  record IsCleared (p q : Packing) : Type 0 where
    old : is_replaceable p.output ≡ true
    gone : q.output ≡ missing
    sum : q.checksum ≡ p.checksum
    text : q.log ≡ p.log

  put_package-Packs :
      (p q : Packing) (line : Text) (archive : Bytes) (w : Writing)
      → IsCleared p q
      → create_ipkg f disk.bytes (control_fields m) (pick q.files) ≡ ok archive
      → writing archive ≡ w
      → Packs p (put_package f disk checksum writing q line archive w)
  put_package-Packs p q line archive whole c h e = (refl, c.old, (archive, h, e, refl, refl))
  put_package-Packs p q line archive (broken left) c h e =
      (inr (c.old, inr (archive, h, e)), c.sum, c.text)

  packed-Packs :
      (p q : Packing) (line : Text) (result : Result IpkgError Bytes)
      → IsCleared p q
      → create_ipkg f disk.bytes (control_fields m) (pick q.files) ≡ result
      → Packs p (packed f disk checksum writing q line result)
  packed-Packs p q line (err e) c h = (inr (c.old, inl c.gone), c.sum, c.text)
  packed-Packs p q line (ok archive) c h =
      put_package-Packs p q line archive (writing archive) c h refl

  with_files-Packs :
      (p q : Packing) (files : Result IpkgError (List PackageFile))
      (next : Packing → Packing × Result IpkgError ℕ)
      → IsCleared p q
      → ((r : Packing) → IsCleared p r → Packs p (next r))
      → Packs p (with_files q files next)
  with_files-Packs p q (err e) next c k = (inr (c.old, inl c.gone), c.sum, c.text)
  with_files-Packs p q (ok files) next c k =
      k (record q { files = files })
        (record { old = c.old; gone = c.gone; sum = c.sum; text = c.text })

  -- what is cleared away may be replaced
  Clears : Output → Result IpkgError Output → Type 0
  Clears old (err e) = Unit
  Clears old (ok after) = (is_replaceable old ≡ true) × (after ≡ missing)

  cleared_output-Clears : (path : Text) (old : Output) → Clears old (cleared_output path old)
  unfolding Clears prepare_package_output
  cleared_output-Clears path missing = (refl, refl)
  cleared_output-Clears path symlink_there = tt
  cleared_output-Clears path other_there = tt
  cleared_output-Clears path (plain links content) = elim (Bool-cases (ltb 1 links)) [
    | inl e ↦ rw e tt
    | inr e ↦ rw e (ground arith, refl)
  ]

  cleared-Packs :
      (p : Packing) (result : Result IpkgError Output)
      (next : Packing → Packing × Result IpkgError ℕ)
      → Clears p.output result
      → ((q : Packing) → IsCleared p q → Packs p (next q))
      → Packs p (cleared p result next)
  unfolding Clears
  cleared-Packs p (err e) next c k = (inl refl, refl, refl)
  cleared-Packs p (ok output) next (old, gone) k =
      k (record p { output = output }) (record { old = old; gone = gone; sum = refl; text = refl })

  pack_app-Packs :
      (p : Packing) (source : Option Bytes)
      → ((files : List PackageFile) → pick files ≡ app_files f disk checksum writing m)
      → Packs p (pack_app f disk checksum writing m p source)
  pack_app-Packs p none same = (inl refl, refl, refl)
  pack_app-Packs p (some _) same =
      cleared-Packs p (cleared_output m.path p.output) _ (cleared_output-Clears m.path p.output)
        (λ q c.
          packed-Packs p q (app_line f disk checksum writing m) _ c
            (ap (create_ipkg f disk.bytes (control_fields m)) (same q.files)))

module _ (f : Formats) (disk : Disk) (checksum : Bytes → Text) (writing : Bytes → Writing)
    (m : PackageManifest) where
  files_Packs :
      (build : Option (Option (List InstallItem))) (p : Packing)
      → Packs f disk checksum writing m
          (λ files. files)
          p
          (files_ipkg_executor f disk checksum writing m build p)
  unfolding files_ipkg_executor
  files_Packs build p =
      let pick : List PackageFile → List PackageFile = λ files. files in
      cleared-Packs f disk checksum writing m pick p (cleared_output m.path p.output) _
        (cleared_output-Clears f disk checksum writing m pick m.path p.output)
        (λ q c.
          with_files-Packs f disk checksum writing m pick p q (build_files disk build q.files) _ c
            (λ r d.
              with_files-Packs f disk checksum writing m pick p r (expand_files disk r.files) _ d
                (λ s e.
                  packed-Packs f disk checksum writing m pick p s
                    (files_line f disk checksum writing m (length s.files)) _ e refl)))

  -- An executor that packs an application or files and returns, returns 0: it replaced nothing but a
  -- file with no other link, by the whole package of the application or of the files it notes, and it
  -- notes the checksum of the package. When it raises, it left what stood there; or it took away such
  -- a file and left nothing, or what a write of the package left that raised. It noted no checksum,
  -- and wrote no line. It is taken that writing to the log never raises.
  pub ipkg_executor-Packs :
      (build : Option (Option (List InstallItem))) (p : Packing)
      → Packs f disk checksum writing m
          (λ _. app_files f disk checksum writing m)
          p
          (ipkg_executor f disk checksum writing m p)
        × Packs f disk checksum writing m
            (λ files. files)
            p
            (files_ipkg_executor f disk checksum writing m build p)
  unfolding ipkg_executor
  ipkg_executor-Packs build p = (
    pack_app-Packs f disk checksum writing m (λ _. app_files f disk checksum writing m) p
        (disk.bytes m.app_output) (λ files. refl),
    files_Packs build p,
  )
