-- ===== src/Files.antt =====
-- What the loaders of src/loader.c and src/multiboot.c ask of the file functions of src/io.c, and the
-- state that they work on.
use osldr.Base.{
  ℕ, ◌+◌, ◌-◌, ◌≤◌, Bool, ◌&&◌, Option, List, leb, ltb, if◌then◌else◌, length, get_or, Bytes,
}
use osldr.Mem.{PhysMem}

-- Files `F` over a state `W`, of which the error number is a part: `OpenFile` of a path, `CloseFile`,
-- `GetFileSize`, `SetFilePointer` from the beginning, and `ReadFile`, which gives the bytes that it has
-- stored in the buffer; and the setting of `errno`.
pub record Files (F W : Type 0) : Type 0 where
  pub open_file : Bytes → W → Option F × W
  pub close_file : F → W → W
  pub file_size : F → W → ℕ
  pub set_file_pointer : F → ℕ → W → Bool × W
  pub read_file : F → ℕ → W → Bytes × W
  pub set_errno : ℕ → W → W

-- `ReadFile` stores no more than was asked for.
abbrev pub ReadsAtMost : (F W : Type 0) → Files F W → Type 0
ReadsAtMost F W io = (f : F) (n : ℕ) (w : W) → length (io.read_file f n w).0 ≤ n

-- The bytes of the memory, the free list `PhysMem`, the heap and the files.
pub record Machine (H W : Type 0) : Type 0 where
  pub memory : ℕ → ℕ
  pub regions : List PhysMem
  pub heap : H
  pub world : W

-- Bytes stored from an address on, and `memset` with 0.
abbrev pub store : ℕ → Bytes → (ℕ → ℕ) → ℕ → ℕ
store p bytes memory x =
    if leb p x && ltb x (p + length bytes) then get_or bytes (x - p) 0 else memory x

abbrev pub clear : ℕ → ℕ → (ℕ → ℕ) → ℕ → ℕ
clear p n memory x = if leb p x && ltb x (p + n) then 0 else memory x
