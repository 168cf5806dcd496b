-- ===== src/Fat/Oem/Short.antt =====
-- Names of at most 8 characters with an extension of at most 3.
use osldr.Base.{
  ℕ, zero, suc, ◌+◌, ◌-◌, ◌≤◌, ◌≡◌, refl, ap, Bool, true, false, not, ◌&&◌, some, [], ◌∷◌, ◌++◌,
  map, leb, ◌==◌, arith, length, replicate, Bytes,
}
use osldr.Base.{length-append}
use osldr.Ctype.{toupper}
use osldr.Fat.Oem.{legal_char, from_period, oem_step, oem_loop, unicode_to_oem}

abbrev is_oem : ℕ → Bool
is_oem c = not (c == b'.') && legal_char (toupper c)

-- Characters that a short name can have.
unfoldable pub all_oem : Bytes → Bool
all_oem [] = true
all_oem (c ∷ s) = let rest = all_oem s in is_oem c && rest

-- The characters of a part of the name are put in capital letters.
oem_loop-part :
    (part rest r : Bytes) (fuel dot i : ℕ)
    → all_oem part ≡ true
    → i + length part ≤ 11
    → oem_loop fuel dot (i + length part) rest ≡ some r
    → oem_loop (length part + fuel) dot i (part ++ rest) ≡ some (map toupper part ++ r)
unfolding oem_loop oem_step all_oem
oem_loop-part [] rest r fuel dot i legal fits e =
    let at : i + 0 ≡ i = omega arith in
    let more : 0 + fuel ≡ fuel = omega arith in let e' = rw at at e in rw more e'
oem_loop-part (c ∷ part) rest r fuel dot i legal fits e =
    let no_period : (c == b'.') ≡ false = ground (arith, legal) in
    let good : legal_char (toupper c) ≡ true = ground (arith, legal) in
    let legal' : all_oem part ≡ true = ground (arith, legal) in
    let room : leb 11 i ≡ false = ground (arith, fits) in
    let shift : i + suc (length part) ≡ i + 1 + length part = omega arith in
    let more : suc (length part) + fuel ≡ suc (length part + fuel) = omega arith in
    let e' = rw shift at e in
    let rest_e = oem_loop-part part rest r fuel dot (i + 1) legal' (omega (arith, fits)) e' in
    rw (more, oem_loop, room, oem_step, no_period, good, rest_e) refl

-- Spaces up to the end.
oem_loop-pad :
    (k fuel dot i : ℕ) → i + k ≡ 11 → oem_loop (k + suc fuel) dot i [] ≡ some (replicate k b' ')
unfolding oem_loop oem_step
oem_loop-pad zero fuel dot i e =
    let full : leb 11 i ≡ true = ground (arith, e) in
    let more : 0 + suc fuel ≡ suc fuel = omega arith in rw (more, oem_loop, full) refl
oem_loop-pad (suc k) fuel dot i e =
    let room : leb 11 i ≡ false = ground (arith, e) in
    let more : suc k + suc fuel ≡ suc (k + suc fuel) = omega arith in
    let rest = oem_loop-pad k fuel dot (i + 1) (omega (arith, e)) in
    rw (more, oem_loop, room, rest) refl

-- Spaces up to the extension, which the period itself does not add to.
oem_loop-period :
    (k fuel i : ℕ) (s r : Bytes)
    → i + k ≡ 8
    → oem_loop fuel (length (b'.' ∷ s)) 8 s ≡ some r
    → oem_loop (k + suc fuel) (length (b'.' ∷ s)) i (b'.' ∷ s) ≡ some (replicate k b' ' ++ r)
unfolding oem_loop oem_step
oem_loop-period zero fuel i s r at e =
    let eight : i ≡ 8 = omega (arith, at) in
    let here : (suc (length s) == suc (length s)) ≡ true = ground arith in
    let more : 0 + suc fuel ≡ suc fuel = omega arith in rw (more, eight, oem_loop, here, e) refl
oem_loop-period (suc k) fuel i s r at e =
    let room : leb 11 i ≡ false = ground (arith, at) in
    let before : (i == 8) ≡ false = ground (arith, at) in
    let here : (suc (length s) == suc (length s)) ≡ true = ground arith in
    let more : suc k + suc fuel ≡ suc (k + suc fuel) = omega arith in
    let rest = oem_loop-period k fuel (i + 1) s r (omega (arith, at)) e in
    rw (more, oem_loop, room, here, before, rest) refl

from_period-after :
    (name s : Bytes) → all_oem name ≡ true → from_period (name ++ b'.' ∷ s) ≡ b'.' ∷ s
unfolding from_period all_oem
from_period-after [] s legal = refl
from_period-after (c ∷ name) s legal =
    let no_period : (c == b'.') ≡ false = ground (arith, legal) in
    let legal' : all_oem name ≡ true = ground (arith, legal) in
    rw (from_period, no_period) (from_period-after name s legal')

from_period-none : (name : Bytes) → all_oem name ≡ true → from_period name ≡ []
unfolding from_period all_oem
from_period-none [] legal = refl
from_period-none (c ∷ name) legal =
    let no_period : (c == b'.') ≡ false = ground (arith, legal) in
    let legal' : all_oem name ≡ true = ground (arith, legal) in
    rw (from_period, no_period) (from_period-none name legal')

append-nothing : (s : Bytes) → s ++ [] ≡ s
append-nothing [] = refl
append-nothing (c ∷ s) = ap (λ (l : Bytes). c ∷ l) (append-nothing s)

module _ (name : Bytes) (legal : all_oem name ≡ true) (short : length name ≤ 8) where
  -- `UnicodeToOem` on a name of at most 8 legal characters, with or without an extension of at most 3: the
  -- capital letters of the name with spaces up to 8 characters, and those of the extension with spaces up to 3.
  pub unicode_to_oem-short :
      (ext : Bytes)
      → all_oem ext ≡ true
      → length ext ≤ 3
      → (unicode_to_oem name ≡ map toupper name ++ replicate (11 - length name) b' ')
        × (unicode_to_oem (name ++ b'.' ∷ ext)
            ≡ map toupper name
              ++ (replicate (8 - length name) b' '
                  ++ (map toupper ext ++ replicate (3 - length ext) b' ')))
  unfolding unicode_to_oem
  unicode_to_oem-short ext legal' short' =
      let no_ext = from_period-none name legal in
      let plain : oem_loop 13 0 0 name
          ≡ some (map toupper name ++ replicate (11 - length name) b' ') =
        let fuel : length name + (11 - length name + suc 1) ≡ 13 = omega (arith, short) in
        let pad = oem_loop-pad (11 - length name) 1 0 (0 + length name) (omega (arith, short)) in
        let all =
          oem_loop-part name [] (replicate (11 - length name) b' ') (11 - length name + suc 1) 0 0
            legal (omega (arith, short)) pad in
        rw (append-nothing name, fuel) at all in
      let dot = length (b'.' ∷ ext) in
      let at = from_period-after name ext legal in
      let total : length (name ++ b'.' ∷ ext) ≡ length name + suc (length ext) =
        length-append name (b'.' ∷ ext) in
      let before : leb (length name + suc (length ext) - suc (length ext)) 8 ≡ true =
        ground (arith, short) in
      let some_period : (suc (length ext) == 0) ≡ false = ground arith in
      let full : oem_loop 13 dot 0 (name ++ b'.' ∷ ext)
          ≡ some (
              map toupper name
              ++ (replicate (8 - length name) b' '
                  ++ (map toupper ext ++ replicate (3 - length ext) b' '))) =
        let end : length ext + (3 - length ext + suc 0) ≡ 4 = omega (arith, short') in
        let start : length name + (8 - length name + suc 4) ≡ 13 = omega (arith, short) in
        let pad = oem_loop-pad (3 - length ext) 0 dot (8 + length ext) (omega (arith, short')) in
        let of_ext =
          oem_loop-part ext [] (replicate (3 - length ext) b' ') (3 - length ext + suc 0) dot 8
            legal' (omega (arith, short')) pad in
        let of_ext' = rw (append-nothing ext, end) at of_ext in
        let behind =
          oem_loop-period (8 - length name) 4 (0 + length name) ext
            (map toupper ext ++ replicate (3 - length ext) b' ') (omega (arith, short)) of_ext' in
        let all =
          oem_loop-part name (b'.' ∷ ext) _ (8 - length name + suc 4) dot 0 legal
            (omega (arith, short)) behind in
        rw start at all in
      (
        rw (unicode_to_oem, no_ext, plain) refl,
        rw (unicode_to_oem, at, total, some_period, before, full) refl,
      )
