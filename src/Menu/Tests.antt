-- ===== src/Menu/Tests.antt =====
-- Runs of the boot menu and instances of its theorems.
use osldr.Base.{ℕ, ◌⊎◌, ◌≡◌, refl, true, Option, none, some, List, [], ◌∷◌, arith, Bytes}
use osldr.Menu.Key
use osldr.Menu.{
  Cursor, go_on, react, Menu, choose, tick, round, rounds, pick, positions, scan_images, clip_name,
  run_boot_menu,
}
use osldr.Menu.Window.{next_then_enter}
use osldr.Menu.Timer.{Reaches, run_boot_menu-NoKeys}

abbrev at_end : Cursor
at_end = record { selected = 12; window_start = 0 }

abbrev scrolled : Cursor
scrolled = record { selected = 13; window_start = 1 }

-- With 14 images, the tabulator selects the last one, which the window does not show.
tab_jumps :
    react 14 0x0F (record { selected = 0; window_start = 0 })
    ≡ go_on (record { selected = 13; window_start = 0 })
unfolding react
tab_jumps = refl

abbrev names : List Bytes
names = (1 ∷ []) ∷ (2 ∷ []) ∷ (3 ∷ []) ∷ []

abbrev menu : Menu
menu = record {
  cursor = record { selected = 1; window_start = 0 };
  use_timer = true;
  prev_secs = none;
}

next_then_enter_example :
    (rounds 3 30 ((some Key.next, 0) ∷ (some Key.enter, 0) ∷ []) menu ≡ choose 14)
    × (pick 14 names ≡ none)
next_then_enter_example =
    next_then_enter names 30 0 0 menu [] (omega arith) (omega arith) (omega arith)

abbrev clock : List (Option ℕ × ℕ)
clock = (none, 0) ∷ (none, 1) ∷ (none, 2) ∷ []

run_boot_menu_run : run_boot_menu names 2 2 true clock ≡ some (some 2)
unfolding run_boot_menu scan_images clip_name rounds round tick pick positions
run_boot_menu_run = refl

run_boot_menu-NoKeys_example :
    Reaches 2 clock × (run_boot_menu names 2 2 true clock ≡ some (some 2))
    ⊎ (¬ Reaches 2 clock) × (run_boot_menu names 2 2 true clock ≡ none)
run_boot_menu-NoKeys_example =
    run_boot_menu-NoKeys names 2 2 clock (omega arith) (omega arith) (refl, (refl, (refl, tt)))
