-- ===== src/Loader/Header.antt =====
-- The search for the Multiboot header, and what `ReadMultibootHeader` gives.
use osldr.Base.{
  ℕ, zero, suc, ◌+◌, ◌*◌, ◌%◌, ◌^◌, ◌≤◌, ◌<◌, min, ◌⊎◌, ◌≡◌, inl, inr, refl, sym, ap, ◌∙◌, true,
  false, Option, none, some, [], ◌∷◌, Bool-cases, Option-cases, ltb, ◌==◌, arith, length, drop,
  Bytes,
}
use osldr.Base.{length-drop}
use mathlib.Core.Path.{subst}
use osldr.Allocator.{Allocator}
use osldr.Files.{Files, Machine}
use osldr.Loader.{
  MultibootHeader, sizeof_header, header_of, is_header, search_header, find_header,
  read_multiboot_header,
}

-- The header of a round of the search.
abbrev pub header_at : Bytes → ℕ → MultibootHeader
header_at bytes k = header_of (drop (4 * k) bytes)

-- A Multiboot header: the magic number, and a checksum that makes the sum of the first three fields 0 in 32 bits.
abbrev pub IsMultiboot : MultibootHeader → Type 0
IsMultiboot h = (h.magic ≡ 0x1BADB002) × ((h.magic + h.flags + h.checksum) % 2 ^ 32 ≡ 0)

is_header-IsMultiboot : (h : MultibootHeader) → is_header h ≡ true → IsMultiboot h
unfolding is_header
is_header-IsMultiboot h e = (ground (arith, e), ground (arith, e))

not_header : (h : MultibootHeader) → is_header h ≡ false → ¬ IsMultiboot h
unfolding is_header
not_header h e (magic, sum) = absurd (ground (arith, e, magic, sum))

-- No round of a number below `n` finds a header, as far as the search goes: each header ends before the last byte.
abbrev pub NoneBelow : Bytes → ℕ → Type 0
NoneBelow bytes n =
    (k : ℕ) → k < n → 4 * k + sizeof_header < length bytes → ¬ IsMultiboot (header_at bytes k)

-- The header of a round, the first that is one.
pub record First (bytes : Bytes) (offset : ℕ) (r : Option (ℕ × MultibootHeader)) : Type 0 where
  pub round : ℕ
  pub result : r ≡ some (offset + 4 * round, header_at bytes round)
  pub fits : 4 * round + sizeof_header < length bytes
  pub matches : IsMultiboot (header_at bytes round)
  pub before : NoneBelow bytes round

drop-nil : (n : ℕ) → ◌≡◌ {A = Bytes} (drop n []) []
drop-nil zero = refl
drop-nil (suc n) = refl

drop-drop : (m n : ℕ) (bytes : Bytes) → drop n (drop m bytes) ≡ drop (m + n) bytes
drop-drop zero n bytes = let e : 0 + n ≡ n = omega arith in rw e refl
drop-drop (suc m) n [] = drop-nil n ∙ sym (drop-nil (suc m + n))
drop-drop (suc m) n (b ∷ bytes) =
    let e : suc m + n ≡ suc (m + n) = omega arith in rw e (drop-drop m n bytes)

-- A round of the search behind the first one.
header_at-suc : (bytes : Bytes) (k : ℕ) → header_at (drop 4 bytes) k ≡ header_at bytes (suc k)
header_at-suc bytes k =
    let e : 4 + 4 * k ≡ 4 * suc k = omega arith in
    let same : drop (4 * k) (drop 4 bytes) ≡ drop (4 * suc k) bytes =
      rw (← e) (drop-drop 4 (4 * k) bytes) in
    ap header_of same

NoneBelow-suc :
    (bytes : Bytes) (n : ℕ)
    → ¬ IsMultiboot (header_of bytes)
    → NoneBelow (drop 4 bytes) n
    → NoneBelow bytes (suc n)
NoneBelow-suc bytes n no_first later zero lt fits = no_first
NoneBelow-suc bytes n no_first later (suc k) lt fits =
    subst (λ h. ¬ IsMultiboot h) (header_at-suc bytes k)
      (later k (omega arith) (omega (arith, fits, length-drop 4 bytes)))

First-suc :
    (bytes : Bytes) (offset : ℕ) (r : Option (ℕ × MultibootHeader))
    → ¬ IsMultiboot (header_of bytes)
    → First (drop 4 bytes) (offset + 4) r
    → First bytes offset r
First-suc bytes offset r no_first f =
    let at : offset + 4 + 4 * f.round ≡ offset + 4 * suc f.round = omega arith in
    record {
      round = suc f.round;
      result = f.result ∙ rw (at, header_at-suc bytes f.round) refl;
      fits = omega (arith, f.fits, length-drop 4 bytes);
      matches = subst IsMultiboot (header_at-suc bytes f.round) f.matches;
      before = NoneBelow-suc bytes f.round no_first f.before;
    }

search_header-First :
    (fuel offset : ℕ) (bytes : Bytes)
    → length bytes ≤ fuel
    → let r = search_header fuel offset bytes in
      (r ≡ none) × ((n : ℕ) → NoneBelow bytes n) ⊎ First bytes offset r
unfolding search_header
search_header-First zero offset bytes le =
    inl (refl, λ n k lt fits. absurd (omega (arith, fits, le)))
search_header-First (suc fuel) offset bytes le =
    elim (Bool-cases (ltb sizeof_header (length bytes))) [
      | inr short ↦
          rw (search_header, short)
            (inl (refl, λ n k lt fits. absurd (ground (arith, short, fits))))
      | inl long ↦ elim (Bool-cases (is_header (header_of bytes))) [
        | inl yes_header ↦
            let at : offset + 4 * 0 ≡ offset = omega arith in
            rw (search_header, long, yes_header)
              (inr (record {
                round = 0;
                result = rw at refl;
                fits = ground (arith, long);
                matches = is_header-IsMultiboot (header_of bytes) yes_header;
                before = λ k lt fits. absurd (omega (arith, lt));
              }))
        | inr no_header ↦
            let not_here = not_header (header_of bytes) no_header in
            let later =
              search_header-First fuel (offset + 4) (drop 4 bytes)
                (ground (arith, length-drop 4 bytes, le, long)) in
            rw (search_header, long, no_header)
              (elim later [
                | inl (nothing, none_here) ↦ inl (
                  nothing,
                  λ n k lt fits.
                      NoneBelow-suc bytes n not_here (none_here n) k (omega (arith, lt)) fits,
                )
                | inr f ↦ inr (First-suc bytes offset _ not_here f)
              ])
      ]
    ]

-- The search of `ReadMultibootHeader` through the bytes that it has read, with as much fuel as bytes: it
-- finds the first place at a multiple of 4 with a magic number of 0x1BADB002 and a checksum that makes the sum of
-- magic, flags and checksum 0 in 32 bits, whose header ends before the last byte; and nothing exactly if there is
-- none.
pub find_header-First :
    (bytes : Bytes)
    → (find_header bytes ≡ none) × ((n : ℕ) → NoneBelow bytes n) ⊎ First bytes 0 (find_header bytes)
unfolding find_header
find_header-First bytes = search_header-First (length bytes) 0 bytes (omega arith)

module _ {H F W : Type 0} (a : Allocator H) (io : Files F W) where
  -- A header that `ReadMultibootHeader` gives stands at a multiple of 4 inside the file and inside its first 8192
  -- bytes, and its magic and its checksum are right.
  pub read_multiboot_header-found :
      (f : F) (s : Machine H W) (at : ℕ) (h : MultibootHeader)
      → (read_multiboot_header a io f s).1 ≡ some (at, h)
      → (at % 4 ≡ 0) × (at + sizeof_header < min (io.file_size f s.world) 8192) × IsMultiboot h
  unfolding read_multiboot_header
  read_multiboot_header-found f s at h e =
      let size = min (io.file_size f s.world) 8192 in
      let (moved, w) = io.set_file_pointer f 0 s.world in
      let (bytes, w') = io.read_file f size w in
      elim (Bool-cases moved) [
        | inr still ↦ let e' = rw (read_multiboot_header, still) at e in absurd (cc e')
        | inl moves ↦ elim (Option-cases (a.malloc size s.heap).0) [
          | inl full ↦ let e' = rw (read_multiboot_header, moves, full) at e in absurd (cc e')
          | inr (buf, given) ↦ elim (Bool-cases (length bytes == size)) [
            | inr short ↦
                let e' = rw (read_multiboot_header, moves, given, short) at e in absurd (cc e')
            | inl whole ↦
                let e' = rw (read_multiboot_header, moves, given, whole) at e in
                elim (find_header-First bytes) [
                  | inl (nothing, _) ↦ absurd (cc (nothing, e'))
                  | inr r ↦
                      let first : at ≡ 0 + 4 * r.round = cc (r.result, e') in
                      let same : header_at bytes r.round ≡ h = cc (r.result, e') in
                      let all : length bytes ≡ size = ground (arith, whole) in
                      (omega arith, omega (arith, r.fits, all), subst IsMultiboot same r.matches)
                ]
          ]
        ]
      ]
