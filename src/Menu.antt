-- ===== src/Menu.antt =====
-- The boot menu: `RunBootMenu` of src/main.c, and the choice of the image in `main`. The drawing on
-- the screen is left out; keys and the clock are the events of a run.
pub mod Key
pub mod Window
pub mod Timer
mod Tests
use osldr.Base.{
  ℕ, zero, suc, ◌+◌, ◌-◌, ◌*◌, ◌/◌, ◌%◌, ◌≤◌, ◌<◌, ◌^◌, min, max, ◌⊎◌, ◌↔◌, ◌≡◌, ◌≢◌, inl, inr,
  refl, sym, ap, ◌∙◌, Bool, true, false, not, ◌&&◌, ◌||◌, Option, none, some, List, [], ◌∷◌, ◌++◌,
  map, Bool-cases, Option-cases, leb, ltb, ◌==◌, if◌then◌else◌, add32, sub32, mul32, add64, sub64,
  mul64, arith, dec_le, dec_lt, ℕ_discrete, length, get_elem?, get_or, set, take, drop, replicate,
  Bytes, bit_and, bit_or, bit_xor,
}

abbrev pub window_size : ℕ
window_size = 13

-- `Selected` and `windowStart`, both ULONG.
pub record Cursor : Type 0 where
  pub selected : ℕ
  pub window_start : ℕ

-- `while (Selected >= windowStart + windowSize) windowStart++;`
pub scroll_down : ℕ → ℕ → ℕ → ℕ
scroll_down zero selected start = start
scroll_down (suc fuel) selected start =
    let rest = scroll_down fuel selected (add32 start 1) in
    if leb (add32 start window_size) selected then rest else start

-- `while (Selected < windowStart) windowStart--;`
pub scroll_up : ℕ → ℕ → ℕ → ℕ
scroll_up zero selected start = start
scroll_up (suc fuel) selected start =
    let rest = scroll_up fuel selected (sub32 start 1) in if ltb selected start then rest else start

pub key_up : Cursor → Cursor
key_up s =
    if ltb 0 s.selected
    then record {
      selected = s.selected - 1;
      window_start =
          if ltb (s.selected - 1) s.window_start then sub32 s.window_start 1 else s.window_start;
    }
    else s

pub key_down : ℕ → Cursor → Cursor
key_down images s =
    if ltb s.selected (sub32 images 1)
    then record {
      selected = add32 s.selected 1;
      window_start =
          if add32 s.selected 1 == add32 s.window_start window_size
          then add32 s.window_start 1
          else s.window_start;
    }
    else s

-- Where page down and page up move the selection.
pub next_selected : ℕ → ℕ → ℕ
next_selected images selected =
    if ltb selected (sub32 (sub32 images 1) window_size)
    then add32 selected window_size
    else sub32 images 1

pub prev_selected : ℕ → ℕ
prev_selected selected = if leb window_size selected then sub32 selected window_size else 0

-- The fuel of the two loops is one more than the number that bounds their rounds.
pub key_next : ℕ → Cursor → Cursor
key_next images s =
    let selected' = next_selected images s.selected in
    record {
      selected = selected';
      window_start = scroll_down (suc selected') selected' s.window_start;
    }

pub key_prev : Cursor → Cursor
key_prev s =
    let selected' = prev_selected s.selected in
    record {
      selected = selected';
      window_start = scroll_up (suc s.window_start) selected' s.window_start;
    }

-- What a key does: the menu goes on, reboots, or boots the selection.
pub data Reaction : Type 0 where
  go_on : Cursor → Reaction
  reboot : Reaction
  boot : Reaction

-- The chain of tests on the scan code.
pub react : ℕ → ℕ → Cursor → Reaction
react images c s =
    if c == Key.up
    then go_on (key_up s)
    else if c == Key.down
    then go_on (key_down images s)
    else if c == Key.next
    then go_on (key_next images s)
    else if c == Key.prev
    then go_on (key_prev s)
    else if c == Key.home
    then go_on (record { selected = 0; window_start = 0 })
    else if c == Key.finish
    then go_on (record { selected = sub32 images 1; window_start = sub32 images window_size })
    else if c == Key.f9
    then reboot
    else if leb Key.one c && ltb c (add32 Key.one images)
    then go_on (record s { selected = c - Key.one })
    else if c == Key.enter
    then boot
    else go_on s

-- The loop's variables: the cursor, `useTimer` and `nPrevSecs` (`none` is -1).
pub record Menu : Type 0 where
  pub cursor : Cursor
  pub use_timer : Bool
  pub prev_secs : Option ℕ

-- What one round ends in.
pub data Round : Type 0 where
  wait : Menu → Round
  leave : Round
  choose : ℕ → Round

abbrev pub secs_changed : Option ℕ → ℕ → Bool
secs_changed none secs = true
secs_changed (some p) secs = not (p == secs)

-- The second half of a round: the timer.
pub tick : ℕ → ℕ → Menu → Round
tick timeout secs m =
    if m.use_timer && secs_changed m.prev_secs secs
    then if secs == timeout
      then choose m.cursor.selected
      else wait (record m { prev_secs = some secs })
    else wait m

-- One round of the loop, with the key that waits (if any) and the seconds since the menu started.
pub round : ℕ → ℕ → Option ℕ → ℕ → Menu → Round
round images timeout none secs m = tick timeout secs m
round images timeout (some c) secs m = elim (react images c m.cursor) [
  | go_on s ↦ tick timeout secs (record { cursor = s; use_timer = false; prev_secs = m.prev_secs })
  | reboot ↦ leave
  | boot ↦ choose m.cursor.selected
]

-- The loop over a sequence of events; `wait` when they run out.
pub rounds : ℕ → ℕ → List (Option ℕ × ℕ) → Menu → Round
rounds images timeout [] m = wait m
rounds images timeout ((key, secs) ∷ events) m = elim (round images timeout key secs m) [
  | wait m' ↦ rounds images timeout events m'
  | leave ↦ leave
  | choose selected ↦ choose selected
]

-- The loop after the menu: `i` counts down from `nImages - 1` along the list; past its end is NULL.
pub pick {ℓ} : {A : Type ℓ} → ℕ → List A → Option A
pick selected [] = none
pick selected (img ∷ rest) = if length rest == selected then some img else pick selected rest

-- The images as positions in the list.
pub positions {ℓ} : {A : Type ℓ} → ℕ → List A → List ℕ
positions i [] = []
positions i (x ∷ xs) = i ∷ positions (i + 1) xs

-- `strcpy( &img->Name[47], "..." )` on names longer than 50.
pub clip_name : Bytes → Bytes
clip_name name = if ltb 50 (length name) then take 47 name ++ (b'.' ∷ b'.' ∷ b'.' ∷ []) else name

-- `img == config->Default` on a walk along the list: how many images the default one is ahead.
abbrev ahead : Option ℕ → Option ℕ
ahead (some (suc k)) = some k
ahead _ = none

abbrev is_here : Option ℕ → Bool
is_here (some zero) = true
is_here _ = false

-- The first loop: `MaxLen`, and the counter `i` at the default image.
pub scan_images : List Bytes → Option ℕ → ℕ → ℕ → ℕ × ℕ
scan_images [] default max_len selected = (max_len, selected)
scan_images (name ∷ rest) default max_len selected =
    let len = length (clip_name name) in
    scan_images rest (ahead default) (if ltb max_len len then len else max_len)
      (if is_here default then length rest else selected)

-- `RunBootMenu` on the names of the images and the place of the default one in the list: NULL or
-- the image that it returns, as a position in the list; `none` outside while it still waits.
pub run_boot_menu : List Bytes → ℕ → ℕ → Bool → List (Option ℕ × ℕ) → Option (Option ℕ)
run_boot_menu names default timeout use_timer events =
    if use_timer && timeout == 0
    then some (some default)
    else let selected = (scan_images names (some default) 10 0).1 in
      let first : Menu = record {
        cursor = record { selected = selected; window_start = 0 };
        use_timer = use_timer;
        prev_secs = none;
      } in
      elim (rounds (length names) timeout events first) [
        | wait _ ↦ none
        | leave ↦ some none
        | choose k ↦ some (pick k (positions 0 names))
      ]
