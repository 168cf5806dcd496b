-- ===== src/Config/Tests.antt =====
-- A run of the parser and an instance of its theorem.
use osldr.Base.{ℕ, ◌+◌, ◌≡◌, refl, Bool, true, some, [], ◌∷◌, Bytes}
use osldr.Allocator.{Allocator}
use osldr.Ctype.{isspace, toupper, islower}
use osldr.Number.{skip_spaces}
use osldr.Config.Text.{
  trim, same_word, cut, before, without_nuls, unix_lines, split_lines, lines_of,
}
use osldr.Config.{
  auto, Config, on_head, on_image, accepted, all_complete, validate, copy_string, set_command,
  parse_directive, create_image, parse_section, parse_setting, parse_line, parse_lines,
  parse_config_file, no_drive,
}
use osldr.Config.Complete.{IsComplete, parse_config_file-IsComplete}

abbrev heap : Allocator ℕ
heap = record { malloc = λ n h. (some h, h + n); free = λ p h. h }

abbrev grow : ℕ → ℕ → Bool × ℕ
grow n h = (true, h)

-- A section `[A]` with the setting `command=/k`.
abbrev boot_ini : Bytes
boot_ini =
    b'[' ∷ b'A' ∷ b']' ∷ b'\n' ∷ b' ' ∷ b'c' ∷ b'o' ∷ b'm' ∷ b'm' ∷ b'a' ∷ b'n' ∷ b'd' ∷ b' ' ∷ b'='
    ∷ b' ' ∷ b'/' ∷ b'k' ∷ b';' ∷ b'c' ∷ []

abbrev parsed : Config
parsed = record {
  timeout = 120;
  default = some 0;
  images =
      record {
        name = b'A' ∷ [];
        command = some (b'/' ∷ b'k' ∷ []);
        kind = auto;
        address = 0;
        drive = no_drive;
        modules = [];
      }
      ∷ [];
}

boot_ini_run : parse_config_file heap grow 18 boot_ini 1 ≡ accepted parsed
unfolding parse_config_file parse_lines parse_line parse_section parse_setting parse_directive
    set_command create_image copy_string validate all_complete on_image on_head trim same_word cut
    before without_nuls unix_lines split_lines lines_of skip_spaces isspace toupper islower
boot_ini_run = refl

parse_config_file-IsComplete_example : IsComplete parsed
parse_config_file-IsComplete_example =
    parse_config_file-IsComplete heap grow 18 boot_ini 1 parsed boot_ini_run
