-- ===== src/Volumes/Stream.antt =====
-- The bytes of a device as a function of their place.
use osldr.Base.{
  ℕ, zero, suc, ◌+◌, ◌-◌, ◌*◌, ◌/◌, ◌%◌, ◌≤◌, ◌<◌, ◌≡◌, refl, ap, ◌∙◌, [], ◌∷◌, ◌++◌, arith, length,
  get_or, take, drop, Bytes,
}
use osldr.Base.{length-append}
use native.Mathlib.Nat.{mul-add-div_right, mul-add-mod_self_right, div-eq_of_lt, mod-eq_of_lt}
use osldr.Sectors.{slice}
use osldr.Volumes.{concat}

-- The bytes from `start` on, `n` of them.
abbrev pub stream : (ℕ → ℕ) → ℕ → ℕ → Bytes
stream f start zero = []
stream f start (suc n) = f start ∷ stream f (start + 1) n

-- A byte of a device by its place, over sectors of a size.
abbrev pub device_byte : (ℕ → Bytes) → ℕ → ℕ → ℕ
device_byte volume size i = get_or (volume (i / size)) (i % size) 0

pub length-stream : (f : ℕ → ℕ) (start n : ℕ) → length (stream f start n) ≡ n
length-stream f start zero = refl
length-stream f start (suc n) = ap suc (length-stream f (start + 1) n)

pub stream_split :
    (f : ℕ → ℕ) (start m n : ℕ)
    → stream f start m ++ stream f (start + m) n ≡ stream f start (m + n)
stream_split f start zero n =
    let e : start + 0 ≡ start = omega arith in let e' : 0 + n ≡ n = omega arith in rw (e, e') refl
stream_split f start (suc m) n =
    let shift : start + suc m ≡ start + 1 + m = omega arith in
    let total : suc m + n ≡ suc (m + n) = omega arith in
    rw (shift, total, stream_split f (start + 1) m n) refl

pub take-stream : (f : ℕ → ℕ) (start k n : ℕ) → k ≤ n → take k (stream f start n) ≡ stream f start k
take-stream f start zero n le = refl
take-stream f start (suc k) zero le = absurd (omega arith)
take-stream f start (suc k) (suc n) le =
    ap (λ (l : Bytes). f start ∷ l) (take-stream f (start + 1) k n (omega arith))

pub drop-stream :
    (f : ℕ → ℕ) (start k n : ℕ) → drop k (stream f start n) ≡ stream f (start + k) (n - k)
drop-stream f start zero n =
    let e : start + 0 ≡ start = omega arith in let e' : n - 0 ≡ n = omega arith in rw (e, e') refl
drop-stream f start (suc k) zero = let e : 0 - suc k ≡ 0 = omega arith in rw e refl
drop-stream f start (suc k) (suc n) =
    let shift : start + suc k ≡ start + 1 + k = omega arith in
    let less : suc n - suc k ≡ n - k = omega arith in
    rw (shift, less) (drop-stream f (start + 1) k n)

pub stream_ext :
    (f g : ℕ → ℕ) (start start' n : ℕ)
    → ((i : ℕ) → i < n → f (start + i) ≡ g (start' + i))
    → stream f start n ≡ stream g start' n
stream_ext f g start start' zero e = refl
stream_ext f g start start' (suc n) e =
    let first = e 0 (omega arith) in
    let at : start + 0 ≡ start = omega arith in
    let at' : start' + 0 ≡ start' = omega arith in
    let head = rw (at, at') at first in
    let rest : (i : ℕ) → i < n → f (start + 1 + i) ≡ g (start' + 1 + i) = λ i lt.
      let p : start + suc i ≡ start + 1 + i = omega arith in
      let q : start' + suc i ≡ start' + 1 + i = omega arith in
      let step = e (suc i) (omega arith) in rw (p, q) at step in
    let tail = stream_ext f g (start + 1) (start' + 1) n rest in rw (head, tail) refl

-- A list is the stream of its bytes.
stream_of :
    (b : Bytes) (f : ℕ → ℕ) (start : ℕ)
    → ((i : ℕ) → i < length b → f (start + i) ≡ get_or b i 0)
    → b ≡ stream f start (length b)
stream_of [] f start e = refl
stream_of (x ∷ xs) f start e =
    let at : start + 0 ≡ start = omega arith in
    let first = e 0 (omega arith) in
    let head = rw at at first in
    let rest : (i : ℕ) → i < length xs → f (start + 1 + i) ≡ get_or xs i 0 = λ i lt.
      let p : start + suc i ≡ start + 1 + i = omega arith in
      let step = e (suc i) (omega arith) in rw p at step in
    let tail = stream_of xs f (start + 1) rest in rw (head, ← tail) refl

-- The sectors of a device are the stream of its bytes.
pub concat-slice :
    (volume : ℕ → Bytes) (size : ℕ)
    → 0 < size
    → ((i : ℕ) → length (volume i) ≡ size)
    → (sector n : ℕ)
    → concat (slice volume sector n) ≡ stream (device_byte volume size) (sector * size) (n * size)
concat-slice volume size pos whole sector zero = let e : 0 * size ≡ 0 = omega arith in rw e refl
concat-slice volume size pos whole sector (suc n) =
    let byte = device_byte volume size in
    let here : volume sector ≡ stream byte (sector * size) size =
      let all = stream_of (volume sector) byte (sector * size) (λ i lt.
        let below : i < size = rw (← whole sector) lt in
        let at : (sector * size + i) / size ≡ sector =
          mul-add-div_right pos sector i ∙ omega (arith, div-eq_of_lt below) in
        let off : (sector * size + i) % size ≡ i =
          mul-add-mod_self_right sector size i ∙ mod-eq_of_lt below in
        rw (at, off) refl) in
      rw (whole sector) at all in
    let behind : (sector + 1) * size ≡ sector * size + size = omega arith in
    let total : suc n * size ≡ size + n * size = omega arith in
    let rest = concat-slice volume size pos whole (sector + 1) n in
    let rest' = rw behind at rest in
    ap (λ (l : Bytes). l ++ concat (slice volume (sector + 1) n)) here
    ∙ (ap (λ (l : Bytes). stream byte (sector * size) size ++ l) rest'
        ∙ (stream_split byte (sector * size) size (n * size) ∙ rw total refl))

-- What a read of `n` bytes from a place on leaves: the first bytes of the stream from there on, no more than `n`.
pub record Got {S : Type 0} (I : S → Type 0) (byte : ℕ → ℕ) (cursor n : ℕ) (r : Bytes × S)
    : Type 0 where
  pub keeps : I r.1
  pub le : length r.0 ≤ n
  pub bytes : r.0 ≡ stream byte cursor (length r.0)

module _ {S : Type 0} (I : S → Type 0) (byte : ℕ → ℕ) (cursor n : ℕ) where
  pub Got-nothing : (s : S) → I s → Got I byte cursor n ([], s)
  Got-nothing s v = record { keeps = v; le = omega arith; bytes = refl }

  pub length-more :
      (len : ℕ) (more : Bytes) → length (stream byte cursor len ++ more) ≡ len + length more
  length-more len more =
      length-append (stream byte cursor len) more
      ∙ ap (λ (k : ℕ). k + length more) (length-stream byte cursor len)

  -- A piece, and what is read behind it.
  pub Got-more :
      (len : ℕ) (more : Bytes) (s : S)
      → len ≤ n
      → Got I byte (cursor + len) (n - len) (more, s)
      → Got I byte cursor n (stream byte cursor len ++ more, s)
  Got-more len more s le g =
      let total = length-more len more in
      record {
        keeps = g.keeps;
        le = omega (arith, total, g.le);
        bytes = rw total (
            ap (λ (l : Bytes). stream byte cursor len ++ l) g.bytes
            ∙ stream_split byte cursor len (length more));
      }
