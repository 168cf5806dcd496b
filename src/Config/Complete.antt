-- ===== src/Config/Complete.antt =====
-- Every configuration that the parser accepts is complete.
use osldr.Base.{
  ℕ, ◌+◌, ◌%◌, ◌<◌, ◌^◌, ◌⊎◌, ◌≡◌, ◌≢◌, inl, inr, refl, sym, ap, ◌∙◌, Bool, true, false, ◌&&◌, some,
  List, [], ◌∷◌, Bool-cases, Option-cases, ◌==◌, arith, length, drop, Bytes,
}
use osldr.Allocator.{Allocator}
use osldr.Config.Text.{trim, cut, before, lines_of}
use osldr.Config.{
  Image, Config, accepted, is_binary, all_complete, validate, create_image, parse_section,
  parse_setting, parse_line, parse_lines, empty_config, parse_config_file,
}
use osldr.Config.Directive.{DefaultIn, DefaultIn-suc, same-Kept, parse_directive-Kept}

module _ {H : Type 0} (a : Allocator H) (realloc : ℕ → H → Bool × H) where
  -- The state between two lines: the default image is in the list, and so is a section's image.
  record Running (config : Config) (in_header : Bool) : Type 0 where
    fits : DefaultIn config.default (length config.images)
    some_image : in_header ≡ true → 0 < length config.images

  parse_section-Running :
      (config new : Config) (line : Bytes) (h : H)
      → DefaultIn config.default (length config.images)
      → (parse_section a realloc config line h).0 ≡ some new
      → Running new true
  unfolding parse_section
  parse_section-Running config new line h fits e = elim (Option-cases (cut b']' line)) [
    | inl k ↦ absurd (cc (rw (parse_section, k) at e))
    | inr ((l, r), k) ↦ elim (Option-cases (create_image a realloc (trim (drop 1 l)) h).0) [
      | inl i ↦ absurd (cc (rw (parse_section, k, k, i) at e))
      | inr (image, i) ↦
          let this : record config { images = image ∷ config.images } ≡ new =
            cc (rw (parse_section, k, k, i) at e) in
          rw (sym this)
            (record { fits = DefaultIn-suc config.default _ fits; some_image = λ t. omega arith })
    ]
  ]

  parse_setting-Running :
      (config new : Config) (line : Bytes) (in_header : Bool) (h : H)
      → Running config in_header
      → (parse_setting a realloc config line in_header h).0 ≡ some new
      → Running new in_header
  unfolding parse_setting
  parse_setting-Running config new line in_header h r e = elim (Option-cases (cut b'=' line)) [
    | inl k ↦ absurd (cc (rw (parse_setting, k) at e))
    | inr ((name, value), k) ↦
        let kept =
          parse_directive-Kept a realloc config new (trim name) (trim value) in_header h r.fits
            r.some_image (rw (parse_setting, k) at e) in
        record { fits = kept.fits; some_image = λ t. omega (arith, r.some_image t, kept.same) }
  ]

  parse_line-Running :
      (config new : Config) (line : Bytes) (in_header in_header' : Bool) (h : H)
      → Running config in_header
      → (parse_line a realloc config line in_header h).0 ≡ some (new, in_header')
      → Running new in_header'
  unfolding parse_line
  parse_line-Running config new [] in_header in_header' h r e =
      let this : config ≡ new = cc e in
      let flag : in_header ≡ in_header' = cc e in rw (sym this, sym flag) r
  parse_line-Running config new (c ∷ s) in_header in_header' h r e =
      let line : Bytes = c ∷ s in
      elim (Bool-cases (c == b'[')) [
        | inl w ↦ elim (Option-cases (parse_section a realloc config line h).0) [
          | inl k ↦ absurd (cc (rw (parse_line, w, k) at e))
          | inr (n, k) ↦
              let e' = rw (parse_line, w, k) at e in
              let this : n ≡ new = cc e' in
              let flag : true ≡ in_header' = cc e' in
              rw (sym flag) (
                parse_section-Running config new line h r.fits
                  (k ∙ ap (λ (x : Config). some x) this))
        ]
        | inr w ↦ elim (Option-cases (parse_setting a realloc config line in_header h).0) [
          | inl k ↦ absurd (cc (rw (parse_line, w, k) at e))
          | inr (n, k) ↦
              let e' = rw (parse_line, w, k) at e in
              let this : n ≡ new = cc e' in
              let flag : in_header ≡ in_header' = cc e' in
              rw (sym flag) (
                parse_setting-Running config new line in_header h r
                  (k ∙ ap (λ (x : Config). some x) this))
        ]
      ]

  parse_lines-Running :
      (config new : Config) (ls : List Bytes) (in_header : Bool) (h : H)
      → Running config in_header
      → (parse_lines a realloc config ls in_header h).0 ≡ some new
      → DefaultIn new.default (length new.images)
  unfolding parse_lines
  parse_lines-Running config new [] in_header h r e = (same-Kept config new r.fits e).fits
  parse_lines-Running config new (l ∷ ls) in_header h r e =
      elim (Option-cases (parse_line a realloc config (trim (before b';' l)) in_header h).0) [
        | inl k ↦ absurd (cc (rw (parse_lines, k) at e))
        | inr ((config', in_header'), k) ↦
            parse_lines-Running config' new ls in_header'
              (parse_line a realloc config (trim (before b';' l)) in_header h).1
              (parse_line-Running config config' _ in_header in_header' h r k)
              (rw (parse_lines, k) at e)
      ]

-- An image with a command, and with an address if it is a binary.
pub record IsBootable (image : Image) : Type 0 where
  pub has_command : (text : Bytes) × (image.command ≡ some text)
  pub has_address : (is_binary image.kind ≡ false) ⊎ (image.address ≢ 0)

abbrev pub AllBootable : List Image → Type 0
AllBootable [] = Unit
AllBootable (image ∷ images) = IsBootable image × AllBootable images

-- Every image can be booted, and the default is one of them.
pub record IsComplete (config : Config) : Type 0 where
  pub all_bootable : AllBootable config.images
  pub default : ℕ
  pub is_default : config.default ≡ some default
  pub in_list : default < length config.images

all_complete-AllBootable : (l : List Image) → all_complete l ≡ true → AllBootable l
unfolding all_complete
all_complete-AllBootable [] e = tt
all_complete-AllBootable (image ∷ images) e = elim (Option-cases image.command) [
  | inl k ↦ absurd (cc (rw (all_complete, k) at e))
  | inr (text, k) ↦ elim (Bool-cases (is_binary image.kind && image.address == 0)) [
    | inl b ↦ absurd (cc (rw (all_complete, k, b) at e))
    | inr b ↦
        let bootable : IsBootable image = record {
          has_command = (text, k);
          has_address = elim (Bool-cases (is_binary image.kind)) [
            | inr n ↦ inl n
            | inl y ↦ inr (λ z. ground arith)
          ];
        } in
        (bootable, all_complete-AllBootable images (rw (all_complete, k, b) at e))
  ]
]

List-cases : (l : List Image) → (l ≡ []) ⊎ ((x : Image) × (xs : List Image) × (l ≡ x ∷ xs))
List-cases [] = inl refl
List-cases (x ∷ xs) = inr (x, xs, refl)

validate-IsComplete :
    (config new : Config)
    → DefaultIn config.default (length config.images)
    → validate config ≡ accepted new
    → IsComplete new
unfolding validate
validate-IsComplete config new fits e = elim (Bool-cases (all_complete config.images)) [
  | inr b ↦ absurd (cc (rw (validate, b) at e))
  | inl b ↦ elim (Option-cases config.default) [
    | inr (i, d) ↦
        let e' = rw (validate, b, d) at e in
        let this : config ≡ new = cc e' in
        rw (sym this) (record {
          all_bootable = all_complete-AllBootable config.images b;
          default = i;
          is_default = d;
          in_list = rw d at fits;
        })
    | inl d ↦ elim (List-cases config.images) [
      | inl n ↦ absurd (cc (rw (validate, b, d, n) at e))
      | inr (image, images, n) ↦
          let e' = rw (validate, b, d, n) at e in
          let this : record config { default = some 0 } ≡ new = cc e' in
          rw (sym this) (record {
            all_bootable = all_complete-AllBootable config.images b;
            default = 0;
            is_default = refl;
            in_list = ground (arith, n);
          })
    ]
  ]
]

-- A boot.ini that `ParseConfigFile` accepts gives a configuration in which every image has a command,
-- every image of type Binary has an address other than 0, and the default image is one of the images.
pub parse_config_file-IsComplete :
    {H : Type 0} (a : Allocator H) (realloc : ℕ → H → Bool × H) (size : ℕ) (content : Bytes) (h : H)
    (new : Config)
    → parse_config_file a realloc size content h ≡ accepted new
    → IsComplete new
unfolding parse_config_file
parse_config_file-IsComplete a realloc size content h new e =
    let h' = (a.malloc ((size + 1) % 2 ^ 32) h).1 in
    elim (Option-cases (a.malloc ((size + 1) % 2 ^ 32) h).0) [
      | inl k ↦ absurd (cc (rw (parse_config_file, k) at e))
      | inr (p, k) ↦ elim (Bool-cases (length content == 0)) [
        | inl z ↦ absurd (cc (rw (parse_config_file, k, z) at e))
        | inr z ↦
            elim (Option-cases (parse_lines a realloc empty_config (lines_of content) false h').0) [
              | inl l ↦ absurd (cc (rw (parse_config_file, k, z, l) at e))
              | inr (config, l) ↦
                  validate-IsComplete config new
                    (parse_lines-Running a realloc empty_config config (lines_of content) false h'
                      (record { fits = tt; some_image = λ t. absurd (cc t) }) l)
                    (rw (parse_config_file, k, z, l) at e)
            ]
      ]
    ]
