-- ===== src/Menu/Window.antt =====
-- The selection stays in range and in the window, and where it does not.
use osldr.Base.{
  ℕ, zero, suc, ◌+◌, ◌-◌, ◌≤◌, ◌<◌, ◌^◌, min, ◌⊎◌, ◌≡◌, ◌≢◌, refl, ap, Option, none, some, List, [],
  ◌∷◌, arith, dec_le, dec_lt, length, get_elem?,
}
use osldr.Menu.Key
use osldr.Menu.{
  window_size, Cursor, scroll_down, scroll_up, key_up, key_down, next_selected, prev_selected,
  key_next, key_prev, go_on, react, Menu, choose, tick, round, rounds, pick,
}

-- Page down's loop ends with the selection in the window, having scrolled no further than needed.
pub scroll_down_lem :
    (fuel selected start : ℕ)
    → selected < 2 ^ 31
    → start ≤ selected
    → selected < start + fuel
    → let r = scroll_down fuel selected start in
      (start ≤ r)
      × (r ≤ selected)
      × (selected < r + window_size)
      × ((r ≡ start) ⊎ (r + 12 ≡ selected))
unfolding scroll_down
scroll_down_lem zero selected start small le enough = absurd (omega arith)
scroll_down_lem (suc fuel) selected start small le enough =
    elim (dec_le (start + window_size) selected) [
      | yes more ↦
          ground
            (arith, scroll_down_lem fuel selected (start + 1) small (omega arith) (omega arith))
      | no last ↦ ground arith
    ]

-- Page up's loop ends at the smaller of the two.
pub scroll_up_lem :
    (fuel selected start : ℕ)
    → start < 2 ^ 32
    → start < selected + fuel
    → scroll_up fuel selected start ≡ min selected start
unfolding scroll_up
scroll_up_lem zero selected start small enough = omega arith
scroll_up_lem (suc fuel) selected start small enough = elim (dec_lt selected start) [
  | yes more ↦ ground (arith, scroll_up_lem fuel selected (start - 1) (omega arith) (omega arith))
  | no last ↦ ground arith
]

-- The selection is an image, and the window shows it.
pub record InWindow (images : ℕ) (s : Cursor) : Type 0 where
  pub in_range : s.selected < images
  pub from_start : s.window_start ≤ s.selected
  pub to_end : s.selected < s.window_start + window_size

-- A key that selects an image by its scan code, without scrolling: one from key 1 on, up to the number of images, that
-- does not move the selection by itself.
abbrev pub IsShortcut : ℕ → ℕ → Type 0
IsShortcut images c =
    (Key.one ≤ c)
    × (c < Key.one + images)
    × (c ≢ Key.up)
    × (c ≢ Key.down)
    × (c ≢ Key.next)
    × (c ≢ Key.prev)
    × (c ≢ Key.home)
    × (c ≢ Key.finish)

-- What a shortcut leaves: the image of its scan code, and the window where it was.
abbrev pub Jumps : ℕ → ℕ → Cursor → Cursor → Type 0
Jumps images c s s' =
    IsShortcut images c
    × (s'.selected + Key.one ≡ c)
    × (s'.selected < images)
    × (s'.window_start ≡ s.window_start)

module _ (images : ℕ) (many : window_size < images) (small : images < 2 ^ 31) where
  -- With more images than the window has lines, no key moves the selection out of range.
  pub react-in_range :
      (c : ℕ) (s s' : Cursor)
      → s.selected < images
      → react images c s ≡ go_on s'
      → s'.selected < images
  unfolding react key_up key_down key_next key_prev next_selected prev_selected
  react-in_range c s s' h e = ground arith

get_elem?-cons {ℓ} :
    {A : Type ℓ} (x : A) (xs : List A) (i : ℕ) → 0 < i → get_elem? (x ∷ xs) i ≡ get_elem? xs (i - 1)
get_elem?-cons x xs zero h = elim h [ ]
get_elem?-cons x xs (suc i) h = ap (get_elem? xs) (omega arith)

index_eq : (n k : ℕ) → (suc n - 1 - k - 1 ≡ n - 1 - k)
index_eq n k = omega arith

-- The image at the counter `selected` stands that far from the end of the list.
pub pick_in_range {ℓ} :
    {A : Type ℓ} (selected : ℕ) (imgs : List A)
    → selected < length imgs
    → pick selected imgs ≡ get_elem? imgs (length imgs - 1 - selected)
unfolding pick
pick_in_range selected [] h = absurd (omega arith)
pick_in_range selected (img ∷ rest) h = elim (dec_lt selected (length rest)) [
  | yes more ↦ ground (
    arith,
    pick_in_range selected rest more,
    get_elem?-cons img rest (length rest - selected),
    get_elem?-cons img rest (suc (length rest) - 1 - selected),
    index_eq (length rest) selected,
  )
  | no last ↦
      let e : length rest ≡ selected = omega arith in
      let z : suc (length rest) - 1 - selected ≡ 0 = omega arith in rw z (ground arith)
]

pub pick_past_end {ℓ} :
    {A : Type ℓ} (selected : ℕ) (imgs : List A) → length imgs ≤ selected → pick selected imgs ≡ none
unfolding pick
pick_past_end selected [] h = refl
pick_past_end selected (img ∷ rest) h = ground (arith, pick_past_end selected rest)

-- With at most as many images as the window has lines, page down moves the selection past the last
-- image, and Enter then returns NULL, which `main` takes for a reboot, from whatever image.
pub next_then_enter {ℓ} :
    {A : Type ℓ} (imgs : List A) (timeout t u : ℕ) (m : Menu) (events : List (Option ℕ × ℕ))
    → 0 < length imgs
    → length imgs ≤ window_size
    → m.cursor.selected < length imgs
    → (rounds (length imgs) timeout ((some Key.next, t) ∷ (some Key.enter, u) ∷ events) m
        ≡ choose (m.cursor.selected + window_size))
      × (pick (m.cursor.selected + window_size) imgs ≡ none)
unfolding rounds round react key_next next_selected tick
next_then_enter imgs timeout t u m events some_image few h =
    (ground arith, pick_past_end _ imgs (omega arith))
