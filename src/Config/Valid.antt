-- ===== src/Config/Valid.antt =====
-- What the checks of the configuration let through.
use smart_build.Prelude.{
  ℕ, String, Bool, true, false, not, List, [], ◌∷◌, Option, none, some, any, beq, Bool-cases,
  Option-cases, inl, inr, ◌⊎◌, ◌≡◌, ◌≢◌, refl, sym, ap, ◌∙◌, arith, if◌then◌else◌,
}
use mathlib.Core.Path.{subst}
use smart_build.Prelude.Texts.{◌==◌, elem, eq_iff}
use smart_build.Prelude.Errors.{ok, raise_if-ok, >>=-eq-ok, ok-injective}
use smart_build.Config.{
  Values, Integer, integer, ImageConfig, check_size, rootfs_image_size_mb, rootfs_image_config,
  rootfs_image_formats, rootfs_image_sizes_mb, rootfs_image_size_modes, get_or, is_set,
  rootfs_build_mode, rootfs_build_modes, build_mode_of, allowed_size, Item, name, something,
  PackageList, items, no_list, mapping, no_mapping, Description, all_names, validated_package_list,
  chosen, profile_packages,
}

-- the size that a configuration asks for: 16 without the key, and one of the list
abbrev pub IsSize : (String → Option Integer) → Values → ℕ → Type 0
IsSize parse_int values size =
    (negative : Bool) × (parse_int (get_or "16" (values "ROOTFS_IMAGE_SIZE_MB"))
      ≡ some (integer negative size))
    × ((negative ≡ false) ⊎ (◌≡◌ {A = ℕ} size 0))
    × (any (beq size) rootfs_image_sizes_mb ≡ true)

check_size-ok :
    (raw : String) (o : Option Integer) (size : ℕ)
    → check_size raw o ≡ ok size
    → (negative : Bool) × (o ≡ some (integer negative size))
      × ((negative ≡ false) ⊎ (◌≡◌ {A = ℕ} size 0))
      × (any (beq size) rootfs_image_sizes_mb ≡ true)
check_size-ok raw none size h = absurd (cc h)
check_size-ok raw (some (integer negative magnitude)) size h =
    let (allowed, last) = raise_if-ok (not (allowed_size negative magnitude)) _ _ h in
    let same : magnitude ≡ size = ok-injective last in
    (
      negative,
      rw same refl,
      rw (← same) (sign negative magnitude allowed),
      subst (λ n. any (beq n) rootfs_image_sizes_mb ≡ true) same (ground (arith, allowed)),
    )
  where
    sign :
        (negative : Bool) (magnitude : ℕ)
        → not (allowed_size negative magnitude) ≡ false
        → (negative ≡ false) ⊎ (◌≡◌ {A = ℕ} magnitude 0)
    sign false magnitude h = inl refl
    sign true magnitude h = inr (ground (arith, h))

IsSize-allowed :
    (parse_int : String → Option Integer) (values : Values) (size : ℕ)
    → rootfs_image_size_mb parse_int values ≡ ok size
    → IsSize parse_int values size
unfolding rootfs_image_size_mb
IsSize-allowed parse_int values size h =
    check_size-ok _ (parse_int (get_or "16" (values "ROOTFS_IMAGE_SIZE_MB"))) size h

only_ext4 :
    (format : String)
    → not (elem format rootfs_image_formats) ≡ false
    → (format == "romfs") ≡ false
    → (format == "fat") ≡ false
    → format ≡ "ext4"
unfolding elem
only_ext4 format known other fat = ground (
  arith,
  known,
  other,
  fat,
  eq_iff "ext4" format,
  eq_iff "fat" format,
  eq_iff format "fat",
  eq_iff "romfs" format,
  eq_iff format "romfs",
)

-- What each format takes from the keys. A read-only image has neither a size nor a mode, and no key
-- for them may be set; the mode of a FAT image is fixed, whether the key says so or is not set; an
-- ext4 image has one of the two modes, and without the key it may expand.
abbrev pub IsConfig : (String → Option Integer) → Values → ImageConfig → Type 0
IsConfig parse_int values c =
    (c.format ≡ get_or "ext4" (values "ROOTFS_IMAGE_FORMAT"))
    × ((c.format ≡ "romfs")
          × (values "ROOTFS_IMAGE_SIZE_MB" ≡ none)
          × (values "ROOTFS_IMAGE_SIZE_MODE" ≡ none)
          × (c.size_mb ≡ none)
          × (c.size_mode ≡ none)
        ⊎ ((size : ℕ) × (c.size_mb ≡ some size)
            × IsSize parse_int values size
            × ((c.format ≡ "fat")
                  × (get_or "fixed" (values "ROOTFS_IMAGE_SIZE_MODE") ≡ "fixed")
                  × (c.size_mode ≡ some "fixed")
                ⊎ (c.format ≡ "ext4")
                  × (c.size_mode ≡ some (get_or "expandable" (values "ROOTFS_IMAGE_SIZE_MODE")))
                  × (elem (get_or "expandable" (values "ROOTFS_IMAGE_SIZE_MODE"))
                        rootfs_image_size_modes
                      ≡ true))))

not_set : (o : Option String) → is_set o ≡ false → o ≡ none
not_set none h = refl
not_set (some value) h = cc

-- An image configuration is accepted only with the format that is asked for, or ext4: as romfs with no
-- size key and no mode key; as fat with the size asked for, or 16, and no other mode than fixed; as
-- ext4 with the size asked for, or 16, and the mode asked for, or expandable. The size is one of the
-- list, and so is the mode.
pub rootfs_image_config-IsConfig :
    (parse_int : String → Option Integer) (values : Values) (c : ImageConfig)
    → rootfs_image_config parse_int values ≡ ok c
    → IsConfig parse_int values c
unfolding rootfs_image_config rootfs_image_size_mb elem
rootfs_image_config-IsConfig parse_int values c h =
    let format = get_or "ext4" (values "ROOTFS_IMAGE_FORMAT") in
    let (known, rest) = raise_if-ok (not (elem format rootfs_image_formats)) _ _ h in
    elim (Bool-cases (format == "romfs")) [
      | inl romfs ↦
          let (sized, more) =
            raise_if-ok (is_set (values "ROOTFS_IMAGE_SIZE_MB")) _ _ (rw romfs at rest) in
          let (moded, last) = raise_if-ok (is_set (values "ROOTFS_IMAGE_SIZE_MODE")) _ _ more in
          subst (IsConfig parse_int values) (ok-injective last) (
            sym ((eq_iff format "romfs").0 romfs),
            inl (refl, not_set _ sized, not_set _ moded, refl, refl),
          )
      | inr other ↦ elim (Bool-cases (format == "fat")) [
        | inl fat ↦
            let (size, sized, more) =
              >>=-eq-ok (rootfs_image_size_mb parse_int values) _ (rw (other, fat) at rest) in
            let mode = get_or "fixed" (values "ROOTFS_IMAGE_SIZE_MODE") in
            let (fixed, last) = raise_if-ok (not (mode == "fixed")) _ _ more in
            subst (IsConfig parse_int values) (ok-injective last) (
              sym ((eq_iff format "fat").0 fat),
              inr (
                size,
                refl,
                IsSize-allowed parse_int values size sized,
                inl (refl, ground (arith, fixed, eq_iff mode "fixed"), refl),
              ),
            )
        | inr ext4 ↦
            let mode = get_or "expandable" (values "ROOTFS_IMAGE_SIZE_MODE") in
            let (size, sized, more) =
              >>=-eq-ok (rootfs_image_size_mb parse_int values) _ (rw (other, ext4) at rest) in
            let (listed, last) = raise_if-ok (not (elem mode rootfs_image_size_modes)) _ _ more in
            subst (IsConfig parse_int values) (ok-injective last) (
              refl,
              inr (
                size,
                refl,
                IsSize-allowed parse_int values size sized,
                inr (only_ext4 format known other ext4, refl, ground (arith, listed)),
              ),
            )
      ]
    ]

without_mode :
    (rootfs : String) (profile : Option String) (mode : String)
    → get_or "mixed" (if not (rootfs == "full") then profile else none) ≡ mode
    → (rootfs ≢ "full") × (profile ≡ some mode)
      ⊎ (mode ≡ "mixed") × ((rootfs ≡ "full") ⊎ (profile ≡ none))
without_mode rootfs profile mode h = elim (Bool-cases (rootfs == "full")) [
  | inl full ↦ inr (sym (rw full at h), inl ((eq_iff rootfs "full").0 full))
  | inr other ↦ elim (Option-cases profile) [
    | inl absent ↦ inr (sym (rw (other, absent) at h), inr absent)
    | inr (p, given) ↦ inl (
      λ e. ground (arith, other, e, eq_iff rootfs "full"),
      given ∙ ap some (rw (other, given) at h),
    )
  ]
]

-- The build mode that is accepted is one of the three; it is the one that `ROOTFS_BUILD_MODE` names,
-- or without that key the one that `ROOTFS_PROFILE` names for a root file system that is not full, or
-- without both `mixed`.
rootfs_build_mode-ok :
    (values : Values) (mode : String)
    → rootfs_build_mode values ≡ ok mode
    → (elem mode rootfs_build_modes ≡ true)
      × ((values "ROOTFS_BUILD_MODE" ≡ some mode)
          ⊎ (values "ROOTFS_BUILD_MODE" ≡ none)
            × ((get_or "" (values "ROOTFS") ≢ "full") × (values "ROOTFS_PROFILE" ≡ some mode)
                ⊎ (mode ≡ "mixed")
                  × ((get_or "" (values "ROOTFS") ≡ "full") ⊎ (values "ROOTFS_PROFILE" ≡ none))))
unfolding rootfs_build_mode
rootfs_build_mode-ok values mode h =
    let named = get_or "mixed" (build_mode_of values (values "ROOTFS_BUILD_MODE")) in
    let (listed, last) = raise_if-ok (not (elem named rootfs_build_modes)) _ _ h in
    let same : named ≡ mode = ok-injective last in
    (
      subst (λ m. elem m rootfs_build_modes ≡ true) same (ground (arith, listed)),
      elim (Option-cases (values "ROOTFS_BUILD_MODE")) [
        | inr (m, given) ↦
            inl (
              given
              ∙ ap some (sym (ap (λ o. get_or "mixed" (build_mode_of values o)) given) ∙ same))
        | inl absent ↦ inr (
          absent,
          without_mode (get_or "" (values "ROOTFS")) (values "ROOTFS_PROFILE") mode
              (sym (ap (λ o. get_or "mixed" (build_mode_of values o)) absent) ∙ same),
        )
      ],
    )

all_names-length : (is : List Item) (ns : List String) → all_names is ≡ ok ns → is ≢ [] → ns ≢ []
all_names-length [] ns h left = absurd (left refl)
all_names-length (something ∷ is) ns h left = absurd (cc h)
all_names-length (name n ∷ is) ns h left =
    let (rest, others, last) = >>=-eq-ok (all_names is) (λ r. ok (n ∷ r)) h in
    let same : n ∷ rest ≡ ns = ok-injective last in λ e. absurd (cc (same ∙ e))

validated-ne-nil : (l : PackageList) (ns : List String) → validated_package_list l ≡ ok ns → ns ≢ []
unfolding validated_package_list
validated-ne-nil no_list ns h = absurd (cc h)
validated-ne-nil (items []) ns h = absurd (cc h)
validated-ne-nil (items (i ∷ is)) ns h = all_names-length (i ∷ is) ns h (λ e. cc)

-- A profile never gives an empty list of packages.
profile_packages-ne-nil :
    (d : Description) (profile : Option String) (packages : List String)
    → profile_packages d profile ≡ ok packages
    → packages ≢ []
unfolding profile_packages
profile_packages-ne-nil d profile packages h = elim (Option-cases d.profiles) [
  | inl flat ↦ validated-ne-nil d.packages packages (rw (profile_packages, flat) at h)
  | inr (no_mapping, here) ↦
      let (p, picked, rest) = >>=-eq-ok (chosen d profile) _ (rw (profile_packages, here) at h) in
      absurd (cc rest)
  | inr (mapping found is_empty, here) ↦
      let (p, picked, rest) = >>=-eq-ok (chosen d profile) _ (rw (profile_packages, here) at h) in
      elim (Bool-cases is_empty) [
        | inl empty ↦ absurd (cc (rw empty at rest))
        | inr full ↦ elim (Option-cases (found p)) [
          | inl unknown ↦ absurd (cc (rw (full, unknown) at rest))
          | inr (l, known) ↦ validated-ne-nil l packages (rw (full, known) at rest)
        ]
      ]
]
