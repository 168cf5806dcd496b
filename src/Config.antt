-- ===== src/Config.antt =====
-- The parser of boot.ini, src/config.c.
pub mod Text
pub mod Word
pub mod Directive
pub mod Complete
mod Tests
use osldr.Base.{
  ℕ, zero, suc, ◌+◌, ◌-◌, ◌*◌, ◌/◌, ◌%◌, ◌≤◌, ◌<◌, ◌^◌, min, max, ◌⊎◌, ◌↔◌, ◌≡◌, ◌≢◌, inl, inr,
  refl, sym, ap, ◌∙◌, Bool, true, false, not, ◌&&◌, ◌||◌, Option, none, some, List, [], ◌∷◌, ◌++◌,
  map, Bool-cases, Option-cases, leb, ltb, ◌==◌, if◌then◌else◌, add32, sub32, mul32, add64, sub64,
  mul64, arith, dec_le, dec_lt, ℕ_discrete, length, get_elem?, get_or, set, take, drop, replicate,
  Bytes, bit_and, bit_or, bit_xor,
}
use mathlib.Core.Option
use osldr.Allocator.{Allocator}
use osldr.Number.{Converted, strtoul}
use osldr.Config.Word
use osldr.Config.Text.{trim, same_word, cut, before, lines_of}

-- `Image.Type`
pub data ImageType : Type 0 where
  auto : ImageType
  bootsector : ImageType
  multiboot : ImageType
  relocatable : ImageType
  binary : ImageType

-- `IMAGE`, without what the loaders fill in.
pub record Image : Type 0 where
  pub name : Bytes
  pub command : Option Bytes
  pub kind : ImageType
  pub address : ℕ
  pub drive : ℕ
  pub modules : List Bytes

-- `CONFIG`. The images stand as in the linked list, the newest first; an image is pointed to by the
-- number of images behind it. `nImages` is the length of the list.
pub record Config : Type 0 where
  pub timeout : ℕ
  pub default : Option ℕ
  pub images : List Image

-- `endptr == value`; where `strtoul` does not write through `endptr`, the model takes it for another
-- address.
abbrev pub no_integer : Converted → Bytes → Bool
no_integer c value = elim c.end [ none ↦ false | some rest ↦ length rest == length value ]

abbrev pub no_drive : ℕ
no_drive = 0xFFFFFFFF

pub on_head : (Image → Image) → List Image → List Image
on_head f [] = []
on_head f (image ∷ images) = f image ∷ images

-- A change of `config->Images`, which is not NULL in a section.
pub on_image : (Image → Image) → Config → Config
on_image f config = record config { images = on_head f config.images }

pub type_named : Bytes → ImageType → ImageType
type_named value old =
    if same_word value Word.binary
    then binary
    else if same_word value Word.multiboot
    then multiboot
    else if same_word value Word.bootsector
    then bootsector
    else if same_word value Word.relocatable
    then relocatable
    else old

abbrev pub sizeof_image : ℕ
sizeof_image = 92

abbrev pub sizeof_module : ℕ
sizeof_module = 16

-- The default image is the first one of the file if none is given, which is the last of the list.
pub data Verdict : Type 0 where
  accepted : Config → Verdict
  rejected : Verdict
  null_access : Verdict

abbrev pub is_binary : ImageType → Bool
is_binary auto = false
is_binary bootsector = false
is_binary multiboot = false
is_binary relocatable = false
is_binary binary = true

-- The loop of `ValidateConfig`.
pub all_complete : List Image → Bool
all_complete [] = true
all_complete (image ∷ images) =
    let rest = all_complete images in
    elim image.command [
      | none ↦ false
      | some _ ↦ if is_binary image.kind && image.address == 0 then false else rest
    ]

-- `ValidateConfig`. Without an image it reads `Next` through NULL.
pub validate : Config → Verdict
validate config =
    let chosen : Verdict = elim config.default [
      | some i ↦ accepted config
      | none ↦ elim config.images [
        | [] ↦ null_access
        | _ ∷ _ ↦ accepted (record config { default = some 0 })
      ]
    ] in
    if all_complete config.images then chosen else rejected

-- The value of `Default`: a number, or `Yes`.
pub default_value : Bytes → ℕ
default_value value =
    let c = strtoul value 10 in
    if no_integer c value then (if same_word value Word.yes then 1 else 0) else c.value

-- The directive `Default`; `none` for a second default image.
pub set_default : Config → Bytes → Option Config
set_default config value =
    let chosen : Option Config = elim config.default [
      | some _ ↦ none
      | none ↦ some (record config { default = some (length config.images - 1) })
    ] in
    if default_value value == 0 then some config else chosen

-- What `ParseConfigFile` starts with: a timeout of two minutes.
abbrev pub empty_config : Config
empty_config = record { timeout = 120; default = none; images = [] }

-- `img->nModules`
pub module_count : List Image → ℕ
module_count [] = 0
module_count (image ∷ images) = length image.modules

-- The heap is `malloc` of the allocator, and whether `realloc` to a size succeeds.
module _ {H : Type 0} (a : Allocator H) (realloc : ℕ → H → Bool × H) where
  -- `malloc( strlen( value ) + 1 )` and `strcpy`
  pub copy_string : Bytes → H → Option Bytes × H
  copy_string value h =
      let (block, h') = a.malloc (length value + 1) h in
      (elim block [ none ↦ none | some p ↦ some value ], h')

  pub add_module : Config → Bytes → H → Option Config × H
  add_module config value h =
      let (str, h') = copy_string value h in
      let n = module_count config.images in
      let (grown, h'') = realloc ((n + 8) * sizeof_module) h' in
      let add : Bytes → Config = λ text.
        on_image (λ (image : Image). record image { modules = image.modules ++ (text ∷ []) })
          config in
      elim str [
        | none ↦ (none, h')
        | some text ↦
            if not (n % 8 == 0)
            then (some (add text), h')
            else if grown
            then (some (add text), h'')
            else (none, h'')
      ]

  pub set_command : Config → Bytes → H → Option Config × H
  set_command config value h =
      let (command, h') = copy_string value h in
      elim command [
        | none ↦ (none, h')
        | some text ↦
            (some (on_image (λ (image : Image). record image { command = some text }) config), h')
      ]

  -- `ParseDirective`; `none` stands for FALSE.
  pub parse_directive : Config → Bytes → Bytes → Bool → H → Option Config × H
  parse_directive config name value in_header h =
      let c = strtoul value 0 in
      let address = if no_integer c value then 0 else c.value in
      let drive = if no_integer c value || ltb 0xFF c.value then no_drive else c.value in
      if same_word name Word.timeout
      then (if in_header || no_integer c value
          then (none, h)
          else (some (record config { timeout = c.value }), h))
      else if not in_header
      then (none, h)
      else if same_word name Word.address
      then (some (on_image (λ (image : Image). record image { address = address }) config), h)
      else if same_word name Word.command
      then set_command config value h
      else if same_word name Word.drive
      then (some (on_image (λ (image : Image). record image { drive = drive }) config), h)
      else if same_word name Word.module_word
      then add_module config value h
      else if same_word name Word.type
      then (
        some (
            on_image (λ (image : Image). record image { kind = type_named value image.kind })
              config),
        h,
      )
      else if same_word name Word.default
      then (set_default config value, h)
      else (some config, h)

  -- `CreateImage`. It does not test the second `malloc`, so that the name is copied in any case.
  pub create_image : Bytes → H → Option Image × H
  create_image name h =
      let (block, h') = a.malloc sizeof_image h in
      let (_, h'') = a.malloc (length name + 1) h' in
      let image : Image = record {
        name = name;
        command = none;
        kind = auto;
        address = 0;
        drive = no_drive;
        modules = [];
      } in
      elim block [ none ↦ (none, h') | some p ↦ (some image, h'') ]

  -- A section header, from its `[` on.
  pub parse_section : Config → Bytes → H → Option Config × H
  parse_section config line h =
      let name : Bytes = elim (cut b']' line) [ none ↦ [] | some (l, r) ↦ trim (drop 1 l) ] in
      let (image, h') = create_image name h in
      let added : Option Config = elim image [
        | none ↦ none
        | some i ↦ some (record config { images = i ∷ config.images })
      ] in
      elim (cut b']' line) [ none ↦ (none, h) | some _ ↦ (added, h') ]

  -- A line of the form `name = value`.
  pub parse_setting : Config → Bytes → Bool → H → Option Config × H
  parse_setting config line in_header h = elim (cut b'=' line) [
    | none ↦ (none, h)
    | some (name, value) ↦ parse_directive config (trim name) (trim value) in_header h
  ]

  -- The body of the loop over the lines, for a line without its comment.
  pub parse_line : Config → Bytes → Bool → H → Option (Config × Bool) × H
  parse_line config [] in_header h = (some (config, in_header), h)
  parse_line config (c ∷ s) in_header h =
      let (section, h') = parse_section config (c ∷ s) h in
      let (setting, h'') = parse_setting config (c ∷ s) in_header h in
      if c == b'['
      then (Option.map (λ (new : Config). (new, true)) section, h')
      else (Option.map (λ (new : Config). (new, in_header)) setting, h'')

  pub parse_lines : Config → List Bytes → Bool → H → Option Config × H
  parse_lines config [] in_header h = (some config, h)
  parse_lines config (l ∷ ls) in_header h =
      let (new, h') = parse_line config (trim (before b';' l)) in_header h in
      elim new [
        | none ↦ (none, h')
        | some (config', in_header') ↦ parse_lines config' ls in_header' h'
      ]

  -- `ParseConfigFile` on the size of the file and what `ReadFile` reads of it. The buffer's release is
  -- left out.
  pub parse_config_file : ℕ → Bytes → H → Verdict
  parse_config_file size content h =
      let (buffer, h') = a.malloc ((size + 1) % 2 ^ 32) h in
      let parsed = (parse_lines empty_config (lines_of content) false h').0 in
      let checked : Verdict = elim parsed [ none ↦ rejected | some config ↦ validate config ] in
      elim buffer [ none ↦ rejected | some p ↦ if length content == 0 then rejected else checked ]
