-- ===== src/Io/Path/Parse.antt =====
-- `ParseDevice` reads the names of devices.
use osldr.Base.{
  ℕ, ◌+◌, ◌*◌, ◌≤◌, ◌<◌, ◌^◌, ◌≡◌, refl, ap, ◌∙◌, true, false, none, some, [], ◌∷◌, ◌++◌, ltb, ◌==◌,
  arith, get_or, Bytes, bit_or,
}
use osldr.Base.{all_below, all_below-elim, ==_iff, length-append}
use osldr.Number.{ulltoa, strtoul}
use osldr.Number.RoundTrip.{strtoul-ulltoa, ulltoa_not_empty}
use osldr.Ctype.{isalnum}
use osldr.Io.Path.{Parsed, finish, hard_drive, parse_device, no_number}

-- The devices that a path can name.
pub data DeviceName : Type 0 where
  floppy : ℕ → DeviceName
  disk : ℕ → DeviceName
  partition : ℕ → ℕ → DeviceName

abbrev pub written : DeviceName → Bytes → Bytes
written (floppy n) path = b'f' ∷ b'd' ∷ (ulltoa n 10 ++ path)
written (disk n) path = b'h' ∷ b'd' ∷ (ulltoa n 10 ++ path)
written (partition n p) path = b'h' ∷ b'd' ∷ (ulltoa n 10 ++ (b',' ∷ (ulltoa p 10 ++ path)))

-- The Multiboot number: drive, partition, and no BSD partition.
abbrev pub device_id : DeviceName → ℕ
device_id (floppy n) = n * 2 ^ 24 + 0xFFFFFF
device_id (disk n) = (n + 0x80) * 2 ^ 24 + 0xFFFFFF
device_id (partition n p) = (n + 0x80) * 2 ^ 24 + p * 2 ^ 16 + 0xFFFF

abbrev pub IsName : DeviceName → Type 0
IsName (floppy n) = n ≤ 0x7F
IsName (disk n) = n ≤ 0x7F
IsName (partition n p) = (n ≤ 0x7F) × (p ≤ 254)

-- A path is empty or begins with a slash.
abbrev pub IsPath : Bytes → Type 0
IsPath [] = Unit
IsPath (c ∷ s) = c ≡ b'/'

hard_table : all_below 128 (λ n. bit_or n 0x80 == n + 0x80) ≡ true
unfolding all_below
hard_table = refl

finish-IsPath :
    (device p : ℕ) (path : Bytes) (errno : ℕ)
    → IsPath path
    → device < 256
    → p < 256
    → finish device p path errno ≡ (some (path, device * 2 ^ 24 + p * 2 ^ 16 + 0xFFFF), errno)
unfolding finish
finish-IsPath device p [] errno v small small' = ground arith
finish-IsPath device p (c ∷ path) errno v small small' = ground arith

-- A path stops the reading of a number.
IsPath-stops : (path : Bytes) → IsPath path → isalnum (get_or path 0 0) ≡ false
unfolding isalnum
IsPath-stops [] v = refl
IsPath-stops (c ∷ path) v = rw v refl

module _ (value : ℕ) (rest : Bytes) (fits : value < 2 ^ 32)
    (stops : isalnum (get_or rest 0 0) ≡ false) where
  read :
      strtoul (ulltoa value 10 ++ rest) 10 ≡ record { value = value; end = some rest; errno = none }
  read = strtoul-ulltoa 10 (omega arith) (omega arith) value rest (λ e. omega arith) fits stops

  has_number : no_number (strtoul (ulltoa value 10 ++ rest) 10) (ulltoa value 10 ++ rest) ≡ false
  has_number = rw read (
      ground (
        arith,
        ulltoa_not_empty 10 (omega arith) (omega arith) value,
        length-append (ulltoa value 10) rest,
      ))

no_comma : (path : Bytes) → IsPath path → (get_or path 0 0 == b',') ≡ false
no_comma [] w = refl
no_comma (c ∷ path) w = rw w refl

-- No partition is the partition 0xFF.
whole_disk :
    (n errno : ℕ) (path : Bytes)
    → ◌≡◌ {A = Parsed}
        (some (path, n * 2 ^ 24 + 0xFF * 2 ^ 16 + 0xFFFF), errno)
        (some (path, n * 2 ^ 24 + 0xFFFFFF), errno)
whole_disk n errno path =
    let same : n * 2 ^ 24 + 0xFF * 2 ^ 16 + 0xFFFF ≡ n * 2 ^ 24 + 0xFFFFFF = omega arith in
    ap (λ (id : ℕ). (some (path, id), errno)) same

hard_drive-IsPath :
    (n errno : ℕ) (path : Bytes)
    → n ≤ 0x7F
    → IsPath path
    → hard_drive n path errno ≡ (some (path, (n + 0x80) * 2 ^ 24 + 0xFFFFFF), errno)
unfolding hard_drive
hard_drive-IsPath n errno path small w =
    let high : bit_or n 0x80 ≡ n + 0x80 =
      (==_iff _ _).0 (all_below-elim 128 _ n hard_table (omega arith)) in
    let bare = finish-IsPath (n + 0x80) 0xFF path errno w (omega arith) (omega arith) in
    rw (high, no_comma path w) (bare ∙ whole_disk (n + 0x80) errno path)

hard_drive-partition :
    (n p errno : ℕ) (path : Bytes)
    → n ≤ 0x7F
    → p ≤ 254
    → IsPath path
    → hard_drive n (b',' ∷ (ulltoa p 10 ++ path)) errno
      ≡ (some (path, (n + 0x80) * 2 ^ 24 + p * 2 ^ 16 + 0xFFFF), errno)
unfolding hard_drive
hard_drive-partition n p errno path small small' w =
    let high : bit_or n 0x80 ≡ n + 0x80 =
      (==_iff _ _).0 (all_below-elim 128 _ n hard_table (omega arith)) in
    let stops = IsPath-stops path w in
    let ok : ltb 254 p ≡ false = ground arith in
    rw (high, has_number p path (omega arith) stops, read p path (omega arith) stops, ok)
      (finish-IsPath (n + 0x80) p path errno w (omega arith) (omega arith))

-- For every device name with a drive up to 127 and a partition up to 254, and whatever path follows it,
-- `ParseDevice` returns that path and the number of the device, and leaves `errno`.
pub parse_device-written :
    (boot_device errno : ℕ) (name : DeviceName) (path : Bytes)
    → IsName name
    → IsPath path
    → parse_device boot_device (written name path) errno ≡ (some (path, device_id name), errno)
unfolding parse_device
parse_device-written boot_device errno (floppy n) path v w =
    let stops = IsPath-stops path w in
    let ok : ltb 0x7F n ≡ false = ground arith in
    rw (has_number n path (omega arith) stops, read n path (omega arith) stops, ok)
      (finish-IsPath n 0xFF path errno w (omega arith) (omega arith) ∙ whole_disk n errno path)
parse_device-written boot_device errno (disk n) path v w =
    let stops = IsPath-stops path w in
    let ok : ltb 0x7F n ≡ false = ground arith in
    rw (has_number n path (omega arith) stops, read n path (omega arith) stops, ok)
      (hard_drive-IsPath n errno path v w)
parse_device-written boot_device errno (partition n p) path v w =
    let rest : Bytes = b',' ∷ (ulltoa p 10 ++ path) in
    let stops : isalnum b',' ≡ false = unfold isalnum in refl in
    let ok : ltb 0x7F n ≡ false = ground arith in
    rw (has_number n rest (omega arith) stops, read n rest (omega arith) stops, ok)
      (hard_drive-partition n p errno path v.0 v.1 w)
