-- ===== src/Menu/Timer.antt =====
-- The timer boots the default image.
use osldr.Base.{
  ℕ, zero, suc, ◌+◌, ◌-◌, ◌<◌, ◌⊎◌, ◌≡◌, ◌≢◌, inl, inr, refl, ap, ◌∙◌, true, Option, none, some,
  List, [], ◌∷◌, Bool-cases, Option-cases, arith, ℕ_discrete, length, Bytes,
}
use osldr.Menu.{
  Cursor, Menu, secs_changed, wait, choose, tick, round, rounds, pick, positions, scan_images,
  run_boot_menu,
}

-- No event brings a key.
abbrev pub NoKeys : List (Option ℕ × ℕ) → Type 0
NoKeys [] = Unit
NoKeys ((key, secs) ∷ events) = (key ≡ none) × NoKeys events

-- Some event finds exactly `timeout` seconds passed.
abbrev pub Reaches : ℕ → List (Option ℕ × ℕ) → Type 0
Reaches timeout [] = ⊥
Reaches timeout ((key, secs) ∷ events) = (secs ≡ timeout) ⊎ Reaches timeout events

-- The menu `m` waits on with the timer, has not seen the timeout, and has not moved the selection.
record StillWaits (timeout : ℕ) (m m' : Menu) : Type 0 where
  cursor_same : m'.cursor ≡ m.cursor
  timer_on : m'.use_timer ≡ true
  not_seen : m'.prev_secs ≢ some timeout

tick-cases :
    (timeout secs : ℕ) (m : Menu)
    → m.use_timer ≡ true
    → m.prev_secs ≢ some timeout
    → (secs ≡ timeout) × (tick timeout secs m ≡ choose m.cursor.selected)
      ⊎ (secs ≢ timeout) × (m' : Menu) × (tick timeout secs m ≡ wait m') × StillWaits timeout m m'
unfolding tick
tick-cases timeout secs m timer new = elim (ℕ_discrete secs timeout) [
  | yes now ↦ inl (
    now,
    elim (Option-cases m.prev_secs) [ inl first ↦ ground arith | inr (p, seen) ↦ ground arith ],
  )
  | no later ↦ inr (elim (Bool-cases (secs_changed m.prev_secs secs)) [
    | inl changed ↦ (
      later,
      record m { prev_secs = some secs },
      ground arith,
      record { cursor_same = refl; timer_on = timer; not_seen = λ e. later (ground arith) },
    )
    | inr same ↦
        (later, m, ground arith, record { cursor_same = refl; timer_on = timer; not_seen = new })
  ])
]

-- Without a key the menu chooses the selection it began with once the clock shows the timeout, and
-- waits for ever if the clock never shows it.
pub rounds-NoKeys :
    (images timeout : ℕ) (events : List (Option ℕ × ℕ)) (m : Menu)
    → NoKeys events
    → m.use_timer ≡ true
    → m.prev_secs ≢ some timeout
    → Reaches timeout events × (rounds images timeout events m ≡ choose m.cursor.selected)
      ⊎ (¬ Reaches timeout events) × (m' : Menu) × (rounds images timeout events m ≡ wait m')
unfolding rounds round tick
rounds-NoKeys images timeout [] m quiet timer new = inr (λ w. w, m, refl)
rounds-NoKeys images timeout ((key, secs) ∷ events) m quiet timer new =
    elim (tick-cases timeout secs m timer new) [
      | inl (now, done) ↦ inl (inl now, rw (quiet.0, rounds, round, done))
      | inr (later, m', on, still) ↦
          elim (rounds-NoKeys images timeout events m' quiet.1 still.timer_on still.not_seen) [
            | inl (comes, done) ↦ inl (
              inr comes,
              rw (quiet.0, rounds, round, on)
                  (done ∙ ap (λ (c : Cursor). choose c.selected) still.cursor_same),
            )
            | inr (never, m'', on') ↦ inr (
              λ w. elim w [ inl now ↦ later now | inr comes ↦ never comes ],
              m'',
              rw (quiet.0, rounds, round, on) on',
            )
          ]
    ]

scan_images-passed :
    (names : List Bytes) (max_len selected : ℕ)
    → (scan_images names none max_len selected).1 ≡ selected
unfolding scan_images
scan_images-passed [] max_len selected = refl
scan_images-passed (name ∷ rest) max_len selected = scan_images-passed rest _ selected

scan_images-default :
    (names : List Bytes) (default max_len selected : ℕ)
    → default < length names
    → (scan_images names (some default) max_len selected).1 ≡ length names - 1 - default
unfolding scan_images
scan_images-default [] default max_len selected h = absurd (omega arith)
scan_images-default (name ∷ rest) zero max_len selected h =
    scan_images-passed rest _ (length rest) ∙ omega arith
scan_images-default (name ∷ rest) (suc k) max_len selected h =
    scan_images-default rest k _ selected (omega arith) ∙ omega arith

length-positions : (i : ℕ) (xs : List Bytes) → length (positions i xs) ≡ length xs
unfolding positions
length-positions i [] = refl
length-positions i (x ∷ xs) = ap suc (length-positions (i + 1) xs)

pick-positions :
    (i d k : ℕ) (xs : List Bytes)
    → d < length xs
    → k ≡ length xs - 1 - d
    → pick k (positions i xs) ≡ some (i + d)
unfolding pick positions
pick-positions i d k [] h e = absurd (omega arith)
pick-positions i zero k (x ∷ xs) h e = ground (arith, length-positions (i + 1) xs)
pick-positions i (suc d) k (x ∷ xs) h e =
    ground (
      arith,
      length-positions (i + 1) xs,
      pick-positions (i + 1) d k xs (omega arith) (omega arith),
    )

-- With the timer on, a timeout above 0 and the default image in the list, and if nobody presses a key: if the clock
-- shows exactly the timeout at some time, the menu returns the default image; if it never does, the menu returns
-- nothing.
pub run_boot_menu-NoKeys :
    (names : List Bytes) (default timeout : ℕ) (events : List (Option ℕ × ℕ))
    → default < length names
    → 0 < timeout
    → NoKeys events
    → Reaches timeout events
        × (run_boot_menu names default timeout true events ≡ some (some default))
      ⊎ (¬ Reaches timeout events) × (run_boot_menu names default timeout true events ≡ none)
unfolding run_boot_menu
run_boot_menu-NoKeys names default timeout events h pos quiet =
    let selected = (scan_images names (some default) 10 0).1 in
    let first : Menu = record {
      cursor = record { selected = selected; window_start = 0 };
      use_timer = true;
      prev_secs = none;
    } in
    elim (rounds-NoKeys (length names) timeout events first quiet refl (λ e. cc)) [
      | inl (comes, done) ↦ inl (
        comes,
        ground (
          arith,
          done,
          scan_images-default names default 10 0 h,
          pick-positions 0 default selected names h,
        ),
      )
      | inr (never, m', on) ↦ inr (never, ground (arith, on))
    ]
