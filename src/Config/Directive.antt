-- ===== src/Config/Directive.antt =====
-- A directive leaves the default image in the list.
use osldr.Base.{
  ℕ, suc, ◌+◌, ◌-◌, ◌*◌, ◌%◌, ◌<◌, ◌≡◌, inl, inr, refl, sym, Bool, true, ◌||◌, Option, none, some,
  List, [], ◌∷◌, Bool-cases, Option-cases, ◌==◌, arith, length, Bytes,
}
use osldr.Allocator.{Allocator}
use osldr.Number.{strtoul}
use osldr.Config.Word
use osldr.Config.Text.{same_word}
use osldr.Config.{
  Image, Config, on_head, on_image, copy_string, add_module, set_default, default_value,
  module_count, sizeof_module, set_command, no_integer, parse_directive,
}

-- The default image, if there is one, is in the list.
abbrev pub DefaultIn : Option ℕ → ℕ → Type 0
DefaultIn none n = Unit
DefaultIn (some i) n = i < n

pub DefaultIn-suc : (o : Option ℕ) (n : ℕ) → DefaultIn o n → DefaultIn o (suc n)
DefaultIn-suc none n h = tt
DefaultIn-suc (some i) n h = omega arith

-- A directive leaves the number of images, and the default in the list.
pub record Kept (config new : Config) : Type 0 where
  pub same : length new.images ≡ length config.images
  pub fits : DefaultIn new.default (length new.images)

length-on_head : (f : Image → Image) (l : List Image) → length (on_head f l) ≡ length l
unfolding on_head
length-on_head f [] = refl
length-on_head f (image ∷ images) = refl

on_image-Kept :
    (f : Image → Image) (config new : Config)
    → DefaultIn config.default (length config.images)
    → some (on_image f config) ≡ some new
    → Kept config new
unfolding on_image
on_image-Kept f config new fits e =
    let size = length-on_head f config.images in
    let this : on_image f config ≡ new = cc e in
    rw (sym this) (record { same = size; fits = rw size fits })

pub same-Kept :
    (config new : Config)
    → DefaultIn config.default (length config.images)
    → some config ≡ some new
    → Kept config new
same-Kept config new fits e =
    let this : config ≡ new = cc e in rw (sym this) (record { same = refl; fits = fits })

set_default-Kept :
    (config new : Config) (value : Bytes)
    → DefaultIn config.default (length config.images)
    → 0 < length config.images
    → set_default config value ≡ some new
    → Kept config new
unfolding set_default
set_default-Kept config new value fits pos e = elim (Bool-cases (default_value value == 0)) [
  | inl z ↦ same-Kept config new fits (rw (set_default, z) at e)
  | inr z ↦ elim (Option-cases config.default) [
    | inr (i, d) ↦ absurd (cc (rw (set_default, z, d) at e))
    | inl d ↦
        let e' = rw (set_default, z, d) at e in
        let this : record config { default = some (length config.images - 1) } ≡ new = cc e' in
        rw (sym this) (record { same = refl; fits = omega arith })
  ]
]

module _ {H : Type 0} (a : Allocator H) (realloc : ℕ → H → Bool × H) where
  add_module-Kept :
      (config new : Config) (value : Bytes) (h : H)
      → DefaultIn config.default (length config.images)
      → (add_module a realloc config value h).0 ≡ some new
      → Kept config new
  unfolding add_module
  add_module-Kept config new value h fits e =
      elim (Option-cases (copy_string a realloc value h).0) [
        | inl k ↦ absurd (cc (rw (add_module, k) at e))
        | inr (text, k) ↦ elim (Bool-cases (module_count config.images % 8 == 0)) [
          | inr z ↦ on_image-Kept _ config new fits (rw (add_module, k, z) at e)
          | inl z ↦
              elim (Bool-cases
                (realloc ((module_count config.images + 8) * sizeof_module)
                  (copy_string a realloc value h).1).0) [
                    | inl r ↦ on_image-Kept _ config new fits (rw (add_module, k, z, r) at e)
                    | inr r ↦ absurd (cc (rw (add_module, k, z, r) at e))
                  ]
        ]
      ]

  set_command-Kept :
      (config new : Config) (value : Bytes) (h : H)
      → DefaultIn config.default (length config.images)
      → (set_command a realloc config value h).0 ≡ some new
      → Kept config new
  unfolding set_command
  set_command-Kept config new value h fits e =
      elim (Option-cases (copy_string a realloc value h).0) [
        | inl k ↦ absurd (cc (rw (set_command, k) at e))
        | inr (text, k) ↦ on_image-Kept _ config new fits (rw (set_command, k) at e)
      ]

  -- The directives of a section.
  pub parse_directive-Kept :
      (config new : Config) (name value : Bytes) (in_header : Bool) (h : H)
      → DefaultIn config.default (length config.images)
      → (in_header ≡ true → 0 < length config.images)
      → (parse_directive a realloc config name value in_header h).0 ≡ some new
      → Kept config new
  unfolding parse_directive
  parse_directive-Kept config new name value in_header h fits some_image e =
      let c = strtoul value 0 in
      elim (Bool-cases (same_word name Word.timeout)) [
        | inl w ↦ elim (Bool-cases (in_header || no_integer c value)) [
          | inl b ↦ absurd (cc (rw (parse_directive, w, b) at e))
          | inr b ↦
              let this : record config { timeout = c.value } ≡ new =
                cc (rw (parse_directive, w, b) at e) in
              rw (sym this) (record { same = refl; fits = fits })
        ]
        | inr w ↦ elim (Bool-cases in_header) [
          | inr b ↦ absurd (cc (rw (parse_directive, w, b) at e))
          | inl b ↦ elim (Bool-cases (same_word name Word.address)) [
            | inl w1 ↦ on_image-Kept _ config new fits (rw (parse_directive, w, b, w1) at e)
            | inr w1 ↦ elim (Bool-cases (same_word name Word.command)) [
              | inl w2 ↦
                  set_command-Kept config new value h fits (rw (parse_directive, w, b, w1, w2) at e)
              | inr w2 ↦ elim (Bool-cases (same_word name Word.drive)) [
                | inl w3 ↦
                    on_image-Kept _ config new fits (rw (parse_directive, w, b, w1, w2, w3) at e)
                | inr w3 ↦ elim (Bool-cases (same_word name Word.module_word)) [
                  | inl w4 ↦
                      add_module-Kept config new value h fits
                        (rw (parse_directive, w, b, w1, w2, w3, w4) at e)
                  | inr w4 ↦ elim (Bool-cases (same_word name Word.type)) [
                    | inl w5 ↦
                        on_image-Kept _ config new fits
                          (rw (parse_directive, w, b, w1, w2, w3, w4, w5) at e)
                    | inr w5 ↦ elim (Bool-cases (same_word name Word.default)) [
                      | inl w6 ↦
                          set_default-Kept config new value fits (some_image b)
                            (rw (parse_directive, w, b, w1, w2, w3, w4, w5, w6) at e)
                      | inr w6 ↦
                          same-Kept config new fits
                            (rw (parse_directive, w, b, w1, w2, w3, w4, w5, w6) at e)
                    ]
                  ]
                ]
              ]
            ]
          ]
        ]
      ]
