-- ===== src/Number/RoundTrip.antt =====
-- `strtoul` reads back what `ulltoa` writes.
use osldr.Base.{
  ℕ, zero, suc, ◌+◌, ◌*◌, ◌/◌, ◌%◌, ◌≤◌, ◌<◌, ◌^◌, ◌≡◌, ◌≢◌, refl, sym, ap, ◌∙◌, true, false, not,
  ◌&&◌, ◌||◌, none, some, [], ◌∷◌, ◌++◌, ltb, ◌==◌, add32, mul32, arith, dec_lt, length, get_or,
  Bytes,
}
use mathlib.Core.List.{reverse, reverse-append, append_assoc, append-nil}
use native.Mathlib.Nat.{div-add-mod', mod-lt, div-lt_self, div-le_self, pos_of_div-pos}
use osldr.Base.{all_below, all_below-elim, ==_iff}
use osldr.Ctype.{isspace, isalnum, isdigit, tolower}
use osldr.Number.{
  skip_spaces, skip_plus, digit_value, accumulate, strtoul, digit_char, digits_from, ulltoa,
}

digit_tables :
    (all_below 36 (λ d. isalnum (digit_char d)) ≡ true)
    × (all_below 36 (λ d. digit_value (digit_char d) == d) ≡ true)
    × (all_below 36 (λ d. not (isspace (digit_char d)) && not (digit_char d == b'+')) ≡ true)
unfolding all_below isalnum digit_char digit_value isdigit tolower isspace
digit_tables = (refl, refl, refl)

-- One round of the loop on a digit that `ulltoa` wrote.
accumulate-digit_char :
    (base result d : ℕ) (s : Bytes)
    → base ≤ 36
    → d < base
    → result * base + d < 2 ^ 32
    → result ≤ result * base + d
    → accumulate base result (digit_char d ∷ s) ≡ accumulate base (result * base + d) s
unfolding accumulate
accumulate-digit_char base result d s small lt fits grows =
    let alnum : isalnum (digit_char d) ≡ true =
      all_below-elim 36 _ d digit_tables.0 (omega arith) in
    let value : digit_value (digit_char d) ≡ d =
      (==_iff _ d).0 (all_below-elim 36 _ d digit_tables.1 (omega arith)) in
    let sum : add32 (mul32 result base) d ≡ result * base + d = omega arith in
    rw (alnum, value, sum) (ground arith)

module _ (base : ℕ) (two : 2 ≤ base) (small : base ≤ 36) where
  -- The digits of a number, with what follows: the last digit stands behind the digits of the rest.
  digits_from-last :
      (fuel value : ℕ) (s : Bytes)
      → 0 < value / base
      → reverse (digits_from (suc fuel) base value) ++ s
        ≡ reverse (digits_from fuel base (value / base)) ++ (digit_char (value % base) ∷ s)
  unfolding digits_from
  digits_from-last fuel value s more =
      let test : ltb 0 (value / base) ≡ true = ground arith in
      rw (
        test,
        reverse-append (digit_char (value % base) ∷ []) (digits_from fuel base (value / base)),
        append_assoc,
      )

  digits_from-only :
      (fuel value : ℕ) (s : Bytes)
      → ¬ (0 < value / base)
      → reverse (digits_from (suc fuel) base value) ++ s ≡ digit_char (value % base) ∷ s
  unfolding digits_from
  digits_from-only fuel value s none_left =
      let test : ltb 0 (value / base) ≡ false = ground arith in rw test

  accumulate-last :
      (value : ℕ) (s : Bytes)
      → value < 2 ^ 32
      → accumulate base (value / base) (digit_char (value % base) ∷ s) ≡ accumulate base value s
  accumulate-last value s fits =
      let whole : value / base * base + value % base ≡ value = div-add-mod' value base in
      let grows : value / base ≤ value = div-le_self value base in
      accumulate-digit_char base (value / base) (value % base) s small (mod-lt value (omega arith))
        (omega arith) (omega arith)
      ∙ ap (λ v. accumulate base v s) whole

  -- The loop over the digits of `value` ends with `value`, whatever follows.
  accumulate-digits_from :
      (fuel value : ℕ) (s : Bytes)
      → value < 2 ^ 32
      → value < fuel
      → accumulate base 0 (reverse (digits_from fuel base value) ++ s) ≡ accumulate base value s
  accumulate-digits_from zero value s fits enough = absurd (omega arith)
  accumulate-digits_from (suc fuel) value s fits enough = elim (dec_lt 0 (value / base)) [
    | yes more ↦
        let less : value / base < value = div-lt_self (pos_of_div-pos base more) two in
        rw (digits_from-last fuel value s more) (
          accumulate-digits_from fuel (value / base) _ (omega arith) (omega arith)
          ∙ accumulate-last value s fits)
    | no last ↦
        let none_left : value / base ≡ 0 = omega arith in
        rw (digits_from-only fuel value s last) (
          ap (λ q. accumulate base q (digit_char (value % base) ∷ s)) (sym none_left)
          ∙ accumulate-last value s fits)
  ]

  -- The text begins with no space and no plus.
  record Starts (s : Bytes) : Type 0 where
    first : ℕ
    rest : Bytes
    whole : s ≡ first ∷ rest
    no_space : isspace first ≡ false
    no_plus : (first == b'+') ≡ false

  digits_from-Starts :
      (fuel value : ℕ) (s : Bytes)
      → value < fuel
      → Starts (reverse (digits_from fuel base value) ++ s)
  digits_from-Starts zero value s enough = absurd (omega arith)
  digits_from-Starts (suc fuel) value s enough = elim (dec_lt 0 (value / base)) [
    | yes more ↦
        let less : value / base < value = div-lt_self (pos_of_div-pos base more) two in
        rw (digits_from-last fuel value s more)
          (digits_from-Starts fuel (value / base) _ (omega arith))
    | no last ↦
        let lt : value % base < base = mod-lt value (omega arith) in
        let plain = all_below-elim 36 _ (value % base) digit_tables.2 (omega arith) in
        record {
          first = digit_char (value % base);
          rest = s;
          whole = digits_from-only fuel value s last;
          no_space = ground arith;
          no_plus = ground arith;
        }
  ]

  strtoul-Starts : (t : Bytes) → base ≢ 16 → Starts t → strtoul t base ≡ accumulate base 0 t
  unfolding strtoul skip_spaces
  strtoul-Starts t not_hex st =
      let kept : skip_plus (skip_spaces (st.first ∷ st.rest)) ≡ st.first ∷ st.rest =
        rw st.no_space (rw st.no_plus refl) in
      let given : (base == 0) ≡ false = ground arith in
      let fine : (ltb base 2 || ltb 36 base) ≡ false = ground arith in
      let plain : (base == 16) ≡ false = ground arith in
      rw (st.whole, strtoul, kept, given, fine, plain)

  accumulate-stop :
      (value : ℕ) (s : Bytes)
      → isalnum (get_or s 0 0) ≡ false
      → accumulate base value s ≡ record { value = value; end = some s; errno = none }
  unfolding accumulate
  accumulate-stop value [] stop = refl
  accumulate-stop value (c ∷ s) stop = rw stop

  -- Any base from 2 to 36 but 16: a number below 2 ^ 32 that `ulltoa` has written, with anything behind
  -- it that starts with no letter and no digit, is what `strtoul` returns; it stops at what follows,
  -- and sets no error.
  pub strtoul-ulltoa :
      (value : ℕ) (s : Bytes)
      → base ≢ 16
      → value < 2 ^ 32
      → isalnum (get_or s 0 0) ≡ false
      → strtoul (ulltoa value base ++ s) base ≡ record { value = value; end = some s; errno = none }
  unfolding ulltoa
  strtoul-ulltoa value s not_hex fits stop =
      strtoul-Starts _ not_hex (digits_from-Starts (value + 1) value s (omega arith))
      ∙ accumulate-digits_from (value + 1) value s fits (omega arith)
      ∙ accumulate-stop value s stop

  -- `ulltoa` writes at least one character.
  pub ulltoa_not_empty : (value : ℕ) → 0 < length (ulltoa value base)
  unfolding ulltoa
  ulltoa_not_empty value =
      let st = digits_from-Starts (value + 1) value [] (omega arith) in
      let e = append-nil (reverse (digits_from (value + 1) base value)) in
      omega (arith, ap length (sym e ∙ st.whole))
