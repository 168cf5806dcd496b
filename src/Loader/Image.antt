-- ===== src/Loader/Image.antt =====
-- The memory that the loaders of Multiboot and of binary images take and write to.
use osldr.Base.{
  ℕ, ◌+◌, ◌-◌, ◌%◌, ◌≤◌, ◌<◌, ◌^◌, min, ◌⊎◌, ◌≡◌, inl, inr, refl, sym, ◌∙◌, some, Bool-cases,
  Option-cases, ◌==◌, sub32, add64, sub64, arith, length, Bytes,
}
use osldr.Allocator.{Allocator}
use osldr.Files.{Files, ReadsAtMost, Machine, store, clear}
use osldr.Mem.{phys_alloc}
use osldr.Mem.Region.{IsValid}
use osldr.Io.Errno.{efault, eio, ecorrupt}
use osldr.Loader.{
  MultibootHeader, has_address, validate_addresses, placed, give_back, read_block, place_multiboot,
  read_binary, place_binary,
}
use osldr.Multiboot.Place.{
  Within, Within-heap, Took, store-outside, free-Within, alloc-Within, alloc-none-Within,
  write-Within,
}

-- The fields of a header are numbers of 32 bits.
pub record Fields32 (h : MultibootHeader) : Type 0 where
  pub header_addr : h.header_addr < 2 ^ 32
  pub load_addr : h.load_addr < 2 ^ 32
  pub load_end_addr : h.load_end_addr < 2 ^ 32
  pub bss_end_addr : h.bss_end_addr < 2 ^ 32

-- What `validate_addresses` lets through: the data fits in the block from the load address to the end of
-- the zeros.
pub validate_addresses_bounds :
    (h : MultibootHeader) (found size load_end bss_end : ℕ)
    → Fields32 h
    → found ≤ size
    → h.load_addr + size < 2 ^ 32
    → validate_addresses h found size ≡ some (load_end, bss_end)
    → (h.load_addr ≤ bss_end)
      × (bss_end < 2 ^ 32)
      × (min (sub32 load_end h.load_addr) size ≤ bss_end - h.load_addr)
unfolding validate_addresses
validate_addresses_bounds h found size load_end bss_end k le fits e =
    let k0 = k.header_addr in
    let k1 = k.load_addr in
    let k2 = k.load_end_addr in let k3 = k.bss_end_addr in ground (arith, k0, k1, k2, k3)

clear-outside : (p n x : ℕ) (memory : ℕ → ℕ) → (x < p) ⊎ (p + n ≤ x) → clear p n memory x ≡ memory x
clear-outside p n x memory out = ground arith

-- Bytes, and zeros behind them, inside a block.
filled-outside :
    (p n count zeros x : ℕ) (bytes : Bytes) (memory : ℕ → ℕ)
    → length bytes ≤ count
    → count + zeros ≤ n
    → (x < p) ⊎ (p + n ≤ x)
    → clear (p + count) zeros (store p bytes memory) x ≡ memory x
filled-outside p n count zeros x bytes memory le fits out =
    clear-outside (p + count) zeros x (store p bytes memory) (ground (arith, out))
    ∙ store-outside p x bytes memory (ground (arith, out))

-- The block of an image in memory, from the load address to the end of the zeros, as the header says: all of
-- it was free, and is not any more.
pub record Placed {H W : Type 0} (h : MultibootHeader) (found size : ℕ) (s s' : Machine H W)
    : Type 0 where
  pub load_end : ℕ
  pub bss_end : ℕ
  pub address : ℕ
  pub ends : validate_addresses h found size ≡ some (load_end, bss_end)
  pub took : Took s s' address (sub32 bss_end h.load_addr)

module _ {H F W : Type 0} (a : Allocator H) (io : Files F W) (short : ReadsAtMost F W io) where
  give_back-Within :
      (s s' : Machine H W) (p n : ℕ)
      → p < 2 ^ 32
      → 0 < n
      → n < 2 ^ 32
      → Within s s'
      → Took s s' p n
      → Within s (give_back a io p n s')
  give_back-Within s s' p n low pos small v took =
      free-Within a io short s s' p n low pos small v took

  read_block-Within :
      (h : MultibootHeader) (offset load_end bss_end size p : ℕ) (f : F) (s s' : Machine H W)
      → let n = sub32 bss_end h.load_addr in
        (h.load_addr ≤ bss_end)
          × (bss_end < 2 ^ 32)
          × (min (sub32 load_end h.load_addr) size ≤ bss_end - h.load_addr)
        → Within s s'
        → Took s s' p n
        → p < 2 ^ 32
        → 0 < n
        → let r = read_block a io h offset load_end bss_end size p f s' in
          Within s r.1 × ((e : ℕ) → r.0 ≡ placed e → (e ≡ h.entry_addr) × Took s r.1 p n)
  unfolding read_block
  read_block-Within h offset load_end bss_end size p f s s' (le, small, fits) v took low pos =
      let n = sub32 bss_end h.load_addr in
      let count = min (sub32 load_end h.load_addr) size in
      let (moved, w) = io.set_file_pointer f offset s'.world in
      let (bytes, w') = io.read_file f count w in
      let zeros = sub64 bss_end (add64 h.load_addr count) % 2 ^ 32 in
      let same : sub64 bss_end h.load_addr ≡ n = omega arith in
      let room : count + zeros ≤ n = omega arith in
      let read =
        write-Within s s' p n (store p bytes s'.memory) (io.set_errno eio w') v took (λ x out.
          store-outside p x bytes s'.memory (ground (arith, out, short f count w, room))) in
      elim (Bool-cases moved) [
        | inr e ↦
            rw (read_block, e, same)
              (
                give_back-Within s _ p n low pos (omega arith)
                    (Within-heap s s' s'.heap (io.set_errno ecorrupt w) v) took,
                λ entry r. absurd (cc r),
              )
        | inl e ↦ elim (Bool-cases (length bytes == count)) [
          | inr e' ↦
              rw (read_block, e, e')
                (give_back-Within s _ p n low pos (omega arith) read took, λ entry r. absurd (cc r))
          | inl e' ↦
              rw (read_block, e, e')
                (
                  write-Within s s' p n (clear (p + count) zeros (store p bytes s'.memory)) w' v
                      took
                      (λ x out.
                        filled-outside p n count zeros x bytes s'.memory (short f count w) room
                          out),
                  λ entry r. (sym (cc r), took),
                )
        ]
      ]

  unchanged : (s : Machine H W) (w : W) → IsValid s.regions → Within s (record s { world = w })
  unchanged s w v = record { valid = v; was_free = λ x c. c; kept = λ x out. refl }

  -- `LoadMultiboot` up to the modules, on a well-formed list of free memory, for a header found inside the
  -- file whose fields are any numbers of 32 bits, if `ReadFile` stores no more than was asked for and the load
  -- address plus the size of the file does not pass 4 GB: whether the image is placed or refused, the list is
  -- well-formed again and holds nothing that it did not hold before, and memory that was not free is as
  -- before; if the image is placed, its entry is the one in the header, and it has a block as large as the
  -- header says, which was free and is not any more.
  pub place_multiboot-Within :
      (found : ℕ) (h : MultibootHeader) (f : F) (s : Machine H W)
      → IsValid s.regions
      → Fields32 h
      → found ≤ io.file_size f s.world
      → h.load_addr + io.file_size f s.world < 2 ^ 32
      → let (outcome, s') = place_multiboot a io (some (found, h)) f s in
        Within s s'
        × ((entry : ℕ)
            → outcome ≡ placed entry
            → (entry ≡ h.entry_addr) × Placed h found (io.file_size f s.world) s s')
  unfolding place_multiboot
  place_multiboot-Within found h f s v k le fits =
      let size = io.file_size f s.world in
      let offset = sub64 found (sub32 h.header_addr h.load_addr) in
      elim (Bool-cases (has_address h)) [
        | inr no_address ↦
            rw (place_multiboot, no_address) (unchanged s s.world v, λ e r. absurd (cc r))
        | inl address ↦ elim (Option-cases (validate_addresses h found size)) [
          | inl bad ↦
              rw (place_multiboot, address, bad)
                (unchanged s (io.set_errno ecorrupt s.world) v, λ e r. absurd (cc r))
          | inr ((load_end, bss_end), good) ↦
              let bounds = validate_addresses_bounds h found size load_end bss_end k le fits good in
              let n = sub32 bss_end h.load_addr in
              elim (Option-cases (phys_alloc a h.load_addr n 0 s.regions s.heap).0) [
                | inl full ↦
                    rw (place_multiboot, address, good, full)
                      (
                        Within-heap s _ _ _ (alloc-none-Within a io short h.load_addr n 0 s v full),
                        λ e r. absurd (cc r),
                      )
                | inr (p, given) ↦
                    let (within, took, low, pos) =
                      alloc-Within a io short h.load_addr n 0 p s k.load_addr (omega arith) v
                        given in
                    let (kept, done) =
                      read_block-Within h offset load_end bss_end size p f s _ bounds within took
                        low pos in
                    rw (place_multiboot, address, good, given)
                      (
                        kept,
                        λ e r. (
                          (done e r).0,
                          record {
                            load_end = load_end;
                            bss_end = bss_end;
                            address = p;
                            ends = good;
                            took = (done e r).1;
                          },
                        ),
                      )
              ]
        ]
      ]

  read_binary-Within :
      (size p : ℕ) (f : F) (s s' : Machine H W)
      → Within s s'
      → Took s s' p size
      → p < 2 ^ 32
      → 0 < size
      → size < 2 ^ 32
      → let r = read_binary a io size p f s' in
        Within s r.1 × ((e : ℕ) → r.0 ≡ placed e → Took s r.1 e size)
  unfolding read_binary
  read_binary-Within size p f s s' v took low pos small =
      let (moved, w) = io.set_file_pointer f 0 s'.world in
      let (bytes, w') = io.read_file f size w in
      let read =
        write-Within s s' p size (store p bytes s'.memory) w' v took
          (λ x out. store-outside p x bytes s'.memory (ground (arith, out, short f size w))) in
      elim (Bool-cases moved) [
        | inr e ↦
            rw (read_binary, e)
              (
                give_back-Within s _ p size low pos small
                    (Within-heap s s' s'.heap (io.set_errno efault w) v) took,
                λ entry r. absurd (cc r),
              )
        | inl e ↦ elim (Bool-cases (length bytes == size)) [
          | inr e' ↦
              rw (read_binary, e, e')
                (give_back-Within s _ p size low pos small read took, λ entry r. absurd (cc r))
          | inl e' ↦
              rw (read_binary, e, e') (read, λ entry r. let at : p ≡ entry = cc r in rw at at took)
        ]
      ]

  -- `LoadBinary` up to the modules, on a well-formed list of free memory, for a load address of 32 bits and a
  -- file below 4 GB, if `ReadFile` stores no more than was asked for: whether the image is placed or refused,
  -- the list is well-formed again and holds nothing that it did not hold before, and memory that was not free
  -- is as before; if the image is placed, it starts at its entry, and its bytes were free and are not any more.
  pub place_binary-Within :
      (address : ℕ) (f : F) (s : Machine H W)
      → IsValid s.regions
      → address < 2 ^ 32
      → io.file_size f s.world < 2 ^ 32
      → let (outcome, s') = place_binary a io address f s in
        Within s s'
        × ((entry : ℕ) → outcome ≡ placed entry → Took s s' entry (io.file_size f s.world))
  unfolding place_binary
  place_binary-Within address f s v small fits =
      let size = io.file_size f s.world in
      elim (Bool-cases (address == 0)) [
        | inl nowhere ↦ rw (place_binary, nowhere) (unchanged s s.world v, λ e r. absurd (cc r))
        | inr given_address ↦ elim (Option-cases (phys_alloc a address size 0 s.regions s.heap).0) [
          | inl full ↦
              rw (place_binary, given_address, full)
                (
                  Within-heap s _ _ _ (alloc-none-Within a io short address size 0 s v full),
                  λ e r. absurd (cc r),
                )
          | inr (p, given) ↦
              let (within, took, low, pos) =
                alloc-Within a io short address size 0 p s small fits v given in
              rw (place_binary, given_address, given)
                (read_binary-Within size p f s _ within took low pos fits)
        ]
      ]
