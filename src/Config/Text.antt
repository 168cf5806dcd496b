-- ===== src/Config/Text.antt =====
-- The text of boot.ini: lines, comments and white space.
use osldr.Base.{
  ℕ, Bool, true, false, ◌&&◌, Option, none, some, List, [], ◌∷◌, ◌==◌, if◌then◌else◌, Bytes,
}
use mathlib.Core.List.{reverse}
use osldr.Ctype.{toupper}
use osldr.Number.{skip_spaces}

-- `trim` of src/config.c.
unfoldable pub trim : Bytes → Bytes
trim src = reverse (skip_spaces (reverse (skip_spaces src)))

-- `stricmp(a, b) == 0`
unfoldable pub same_word : Bytes → Bytes → Bool
same_word [] [] = true
same_word [] (d ∷ t) = false
same_word (c ∷ s) [] = false
same_word (c ∷ s) (d ∷ t) =
    let rest = same_word s t in if toupper c == toupper d then rest else false

-- What stands before and behind the first `ch`, as `strchr` finds it.
unfoldable pub cut : ℕ → Bytes → Option (Bytes × Bytes)
cut ch [] = none
cut ch (c ∷ s) =
    let rest : Option (Bytes × Bytes) = elim (cut ch s) [
      | none ↦ none
      | some (l, r) ↦ some (c ∷ l, r)
    ] in
    if c == ch then some ([], s) else rest

-- What stands before the first `ch`, or all of it. (Without a comment, the code writes a 0 to address 0,
-- which is no part of the text.)
unfoldable pub before : ℕ → Bytes → Bytes
before ch s = elim (cut ch s) [ none ↦ s | some (l, r) ↦ l ]

unfoldable pub without_nuls : Bytes → Bytes
without_nuls [] = []
without_nuls (c ∷ s) = let rest = without_nuls s in if c == 0 then rest else c ∷ rest

-- `\r\n` and `\r` become `\n`; the flag says that a `\r` has just been read.
unfoldable pub unix_lines : Bool → Bytes → Bytes
unix_lines cr [] = []
unix_lines cr (c ∷ s) =
    let after_cr = unix_lines true s in
    let rest = unix_lines false s in
    if c == b'\r' then b'\n' ∷ after_cr else if cr && c == b'\n' then rest else c ∷ rest

abbrev on_first : ℕ → List Bytes → List Bytes
on_first c [] = (c ∷ []) ∷ []
on_first c (l ∷ ls) = (c ∷ l) ∷ ls

-- The lines of the loop: one for each `\n`, and the last.
unfoldable pub split_lines : Bytes → List Bytes
split_lines [] = [] ∷ []
split_lines (c ∷ s) = let rest = split_lines s in if c == b'\n' then [] ∷ rest else on_first c rest

unfoldable pub lines_of : Bytes → List Bytes
lines_of buffer = split_lines (unix_lines false (without_nuls buffer))
