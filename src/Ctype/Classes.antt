-- ===== src/Ctype/Classes.antt =====
-- The table of src/ctype.c holds the ASCII classes.
use osldr.Base.{ℕ, ◌<◌, ◌≡◌, refl, sym, Bool, true, false, not, ◌&&◌, ◌||◌, leb, ◌==◌, get_or}
use osldr.Base.{all_below, all_below-elim}
use osldr.Ctype.{
  ctype_table, isdigit, isupper, islower, isspace, isalnum, isalpha, isblank, iscntrl, ispunct,
  isxdigit, isgraph, isprint,
}

abbrev pub within : ℕ → ℕ → ℕ → Bool
within lo hi c = leb lo c && leb c hi

-- Two Boolean tests agree.
abbrev pub agree : Bool → Bool → Bool
agree true b = b
agree false b = not b

agree-eq : (a b : Bool) → agree a b ≡ true → a ≡ b
agree-eq true b h = sym h
agree-eq false true h = cc
agree-eq false false h = refl

abbrev pub letter : ℕ → Bool
letter c = within b'A' b'Z' c || within b'a' b'z' c

class_table :
    (all_below 256 (λ c. agree (isdigit c) (within b'0' b'9' c)) ≡ true)
    × (all_below 256 (λ c. agree (isupper c) (within b'A' b'Z' c)) ≡ true)
    × (all_below 256 (λ c. agree (islower c) (within b'a' b'z' c)) ≡ true)
    × (all_below 256 (λ c. agree (isspace c) (within 9 13 c || c == 32)) ≡ true)
    × (all_below 256 (λ c. agree (isalnum c) (letter c || within b'0' b'9' c)) ≡ true)
    × (all_below 256 (λ c. agree (isalpha c) (letter c)) ≡ true)
    × (all_below 256 (λ c. agree (isblank c) (c == 9 || c == 32)) ≡ true)
    × (all_below 256 (λ c. agree (iscntrl c) ((leb c 31 && not (c == 9)) || c == 127)) ≡ true)
    × (all_below 256
          (λ c. agree (ispunct c) (within 33 126 c && not (letter c || within b'0' b'9' c)))
        ≡ true)
    × (all_below 256
          (λ c. agree (isxdigit c) (within b'0' b'9' c || within b'A' b'F' c || within b'a' b'f' c))
        ≡ true)
    × (all_below 256 (λ c. agree (isgraph c) (within 33 126 c)) ≡ true)
    × (all_below 256 (λ c. agree (isprint c) (within 32 126 c || c == 9)) ≡ true)
    × (all_below 256 (λ c. agree (get_or ctype_table c 0 == 0) (leb 128 c)) ≡ true)
unfolding all_below ctype_table isdigit isupper islower isspace isalnum isalpha isblank iscntrl
    ispunct isxdigit isgraph isprint
class_table = (refl, refl, refl, refl, refl, refl, refl, refl, refl, refl, refl, refl, refl)

-- Every byte is classed as in ASCII: digits, capitals, small letters, white space, letters and digits, letters,
-- blanks, control characters (except the tabulator), punctuation, hexadecimal digits, graphic characters, and
-- printable ones (with the tabulator); and the entry of the table has no class exactly from 128 on.
pub ctype_ascii :
    (c : ℕ)
    → c < 256
    → (isdigit c ≡ (within b'0' b'9' c))
      × (isupper c ≡ (within b'A' b'Z' c))
      × (islower c ≡ (within b'a' b'z' c))
      × (isspace c ≡ (within 9 13 c || c == 32))
      × (isalnum c ≡ (letter c || within b'0' b'9' c))
      × (isalpha c ≡ (letter c))
      × (isblank c ≡ (c == 9 || c == 32))
      × (iscntrl c ≡ ((leb c 31 && not (c == 9)) || c == 127))
      × (ispunct c ≡ (within 33 126 c && not (letter c || within b'0' b'9' c)))
      × (isxdigit c ≡ (within b'0' b'9' c || within b'A' b'F' c || within b'a' b'f' c))
      × (isgraph c ≡ (within 33 126 c))
      × (isprint c ≡ (within 32 126 c || c == 9))
      × ((get_or ctype_table c 0 == 0) ≡ leb 128 c)
ctype_ascii c h = (
  agree-eq _ _ (all_below-elim 256 _ c class_table.0 h),
  agree-eq _ _ (all_below-elim 256 _ c class_table.1 h),
  agree-eq _ _ (all_below-elim 256 _ c class_table.2 h),
  agree-eq _ _ (all_below-elim 256 _ c class_table.3 h),
  agree-eq _ _ (all_below-elim 256 _ c class_table.4 h),
  agree-eq _ _ (all_below-elim 256 _ c class_table.5 h),
  agree-eq _ _ (all_below-elim 256 _ c class_table.6 h),
  agree-eq _ _ (all_below-elim 256 _ c class_table.7 h),
  agree-eq _ _ (all_below-elim 256 _ c class_table.8 h),
  agree-eq _ _ (all_below-elim 256 _ c class_table.9 h),
  agree-eq _ _ (all_below-elim 256 _ c class_table.10 h),
  agree-eq _ _ (all_below-elim 256 _ c class_table.11 h),
  agree-eq _ _ (all_below-elim 256 _ c class_table.12 h),
)
