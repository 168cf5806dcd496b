-- ===== src/Fat/Oem/Tests.antt =====
-- Short names.
use osldr.Base.{◌≡◌, refl, true, [], ◌∷◌, ◌++◌, map, arith, replicate, Bytes}
use osldr.Ctype.{isalnum, toupper}
use osldr.Fat.Oem.{legal_char, from_period, oem_step, oem_loop, unicode_to_oem}
use osldr.Fat.Oem.Short.{all_oem, unicode_to_oem-short}

abbrev boot : Bytes
boot = b'b' ∷ b'o' ∷ b'o' ∷ b't' ∷ []

abbrev ini : Bytes
ini = b'i' ∷ b'n' ∷ b'i' ∷ []

boot-legal : all_oem boot ≡ true
unfolding all_oem legal_char isalnum toupper
boot-legal = refl

ini-legal : all_oem ini ≡ true
unfolding all_oem legal_char isalnum toupper
ini-legal = refl

unicode_to_oem-short_example :
    (unicode_to_oem boot ≡ map toupper boot ++ replicate 7 b' ')
    × (unicode_to_oem (boot ++ b'.' ∷ ini)
        ≡ map toupper boot ++ (replicate 4 b' ' ++ (map toupper ini ++ [])))
unicode_to_oem-short_example =
    unicode_to_oem-short boot boot-legal (omega arith) ini ini-legal (omega arith)

-- An extension of four characters is cut, and the name taken for valid.
cut_extension :
    unicode_to_oem (b'a' ∷ b'.' ∷ b't' ∷ b'e' ∷ b'x' ∷ b't' ∷ [])
    ≡ b'A' ∷ replicate 7 b' ' ++ (b'T' ∷ b'E' ∷ b'X' ∷ [])
unfolding unicode_to_oem oem_loop oem_step from_period legal_char isalnum toupper
cut_extension = refl
