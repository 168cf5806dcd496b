-- ===== src/Number/Tests.antt =====
-- Runs of the conversions and an instance of their round trip.
use osldr.Base.{◌≡◌, refl, none, some, [], ◌∷◌, ◌++◌, arith}
use osldr.Number.{strtoul, ulltoa, accumulate, skip_spaces, auto_base, digit_value}
use osldr.Number.RoundTrip.{strtoul-ulltoa}
use osldr.Ctype.{isalnum, isspace, isdigit, tolower}

hexadecimal :
    strtoul (b'0' ∷ b'x' ∷ b'1' ∷ b'F' ∷ []) 0 ≡ record { value = 31; end = some []; errno = none }
unfolding strtoul accumulate skip_spaces auto_base digit_value isalnum isspace isdigit tolower
hexadecimal = refl

-- The product exceeds 32 bits, but the wrapped value is not smaller than the last, so that the
-- overflow passes unseen.
wrapped :
    (strtoul (b'6' ∷ b'0' ∷ b'0' ∷ b'0' ∷ b'0' ∷ b'0' ∷ b'0' ∷ b'0' ∷ b'0' ∷ b'0' ∷ []) 10).value
    ≡ 1705032704
unfolding strtoul accumulate skip_spaces auto_base digit_value isalnum isspace isdigit tolower
wrapped = refl

strtoul-ulltoa_example :
    strtoul (ulltoa 4000000000 10 ++ (b',' ∷ b'5' ∷ [])) 10
    ≡ record { value = 4000000000; end = some (b',' ∷ b'5' ∷ []); errno = none }
strtoul-ulltoa_example =
    strtoul-ulltoa 10 (omega arith) (omega arith) 4000000000 (b',' ∷ b'5' ∷ []) (λ e. omega arith)
      (omega arith) (unfold isalnum in refl)
