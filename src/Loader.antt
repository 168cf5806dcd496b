-- ===== src/Loader.antt =====
-- The loading of images in src/loader.c: the search for the Multiboot header, and the loaders of Multiboot
-- and of binary images.
pub mod Header
pub mod Image
mod Tests
use osldr.Base.{
  ℕ, zero, suc, ◌+◌, ◌-◌, ◌*◌, ◌/◌, ◌%◌, ◌≤◌, ◌<◌, ◌^◌, min, max, ◌⊎◌, ◌↔◌, ◌≡◌, ◌≢◌, inl, inr,
  refl, sym, ap, ◌∙◌, Bool, true, false, not, ◌&&◌, ◌||◌, Option, none, some, List, [], ◌∷◌, ◌++◌,
  map, Bool-cases, Option-cases, leb, ltb, ◌==◌, if◌then◌else◌, add32, sub32, mul32, add64, sub64,
  mul64, arith, dec_le, dec_lt, ℕ_discrete, length, get_elem?, get_or, set, take, drop, replicate,
  Bytes, bit_and, bit_or, bit_xor,
}
use osldr.Allocator.{Allocator}
use osldr.Files.{Files, Machine, store, clear}
use osldr.Mem.{PhysMem, phys_alloc, phys_free}
use osldr.Multiboot.{Module, load_modules}
use osldr.Io.Errno.{enomem, efault, eio, ecorrupt}

-- A ULONG at the start of a list of bytes.
abbrev pub word32 : Bytes → ℕ
word32 b = get_or b 0 0 + 256 * get_or b 1 0 + 65536 * get_or b 2 0 + 16777216 * get_or b 3 0

-- `MULTIBOOT_HEADER`, without the fields for the graphics mode, and its size.
pub record MultibootHeader : Type 0 where
  pub magic : ℕ
  pub flags : ℕ
  pub checksum : ℕ
  pub header_addr : ℕ
  pub load_addr : ℕ
  pub load_end_addr : ℕ
  pub bss_end_addr : ℕ
  pub entry_addr : ℕ

abbrev pub sizeof_header : ℕ
sizeof_header = 48

abbrev pub multiboot_magic : ℕ
multiboot_magic = 0x1BADB002

abbrev pub header_of : Bytes → MultibootHeader
header_of b = record {
  magic = word32 b;
  flags = word32 (drop 4 b);
  checksum = word32 (drop 8 b);
  header_addr = word32 (drop 12 b);
  load_addr = word32 (drop 16 b);
  load_end_addr = word32 (drop 20 b);
  bss_end_addr = word32 (drop 24 b);
  entry_addr = word32 (drop 28 b);
}

-- The two tests of the loop in `ReadMultibootHeader`.
pub is_header : MultibootHeader → Bool
is_header h = (h.magic == multiboot_magic) && (add32 (add32 h.magic h.flags) h.checksum == 0)

-- The loop: the offset, and the bytes from there on. Each round passes 4 bytes.
pub search_header : ℕ → ℕ → Bytes → Option (ℕ × MultibootHeader)
search_header zero offset bytes = none
search_header (suc fuel) offset bytes =
    let rest = search_header fuel (offset + 4) (drop 4 bytes) in
    if ltb sizeof_header (length bytes)
    then if is_header (header_of bytes) then some (offset, header_of bytes) else rest
    else none

pub find_header : Bytes → Option (ℕ × MultibootHeader)
find_header bytes = search_header (length bytes) 0 bytes

-- The bits `MIF_HAS_ADDRESS` and `MIF_WANT_PAGE_ALIGN` of the flags.
abbrev pub has_address : MultibootHeader → Bool
has_address h = h.flags / 65536 % 2 == 1

abbrev pub wants_page_align : MultibootHeader → Bool
wants_page_align h = h.flags % 2 == 1

-- The checks of the addresses in `LoadMultiboot`, for a header found at an offset in a file of a size: where
-- the data and the zeros behind it end.
pub validate_addresses : MultibootHeader → ℕ → ℕ → Option (ℕ × ℕ)
validate_addresses h found size =
    let offset = sub64 found (sub32 h.header_addr h.load_addr) in
    let load_end =
      if h.load_end_addr == 0
      then add64 h.load_addr (sub64 size offset) % 2 ^ 32
      else h.load_end_addr in
    let bss_end = if h.bss_end_addr == 0 then load_end else h.bss_end_addr in
    if ltb h.header_addr h.load_addr || ltb found (sub32 h.header_addr h.load_addr)
    then none
    else if not (h.load_end_addr == 0) && ltb h.load_end_addr h.load_addr
    then none
    else if not (h.bss_end_addr == 0) && ltb h.bss_end_addr (add64 h.load_addr size)
    then none
    else some (load_end, bss_end)

-- What a loader has come to: TRUE, since the image is not its kind; FALSE; or an image in memory, with its
-- entry.
pub data Outcome : Type 0 where
  not_mine : Outcome
  refused : Outcome
  placed : ℕ → Outcome

module _ {H F W : Type 0} (a : Allocator H) (io : Files F W) where
  -- `errno` is set.
  abbrev pub fail : ℕ → Machine H W → Machine H W
  fail e s = record s { world = io.set_errno e s.world }

  abbrev pub give_back : ℕ → ℕ → Machine H W → Machine H W
  give_back p n s =
      let (regions, heap) = phys_free a p n s.regions s.heap in
      record s { regions = regions; heap = heap }

  -- `ReadMultibootHeader`
  pub read_multiboot_header : F → Machine H W → Bool × Option (ℕ × MultibootHeader) × Machine H W
  read_multiboot_header f s =
      let size = min (io.file_size f s.world) 8192 in
      let (moved, w) = io.set_file_pointer f 0 s.world in
      let s : Machine H W = record s { world = w } in
      let (buffer, heap) = a.malloc size s.heap in
      let s' : Machine H W = record s { heap = heap } in
      let (bytes, w') = io.read_file f size s'.world in
      if not moved then (false, none, fail efault s) else elim buffer [
        | none ↦ (false, none, fail enomem s')
        | some buf ↦
            let s' : Machine H W = record s' { heap = a.free buf s'.heap; world = w' } in
            if length bytes == size then (true, find_header bytes, s') else (false, none, s')
      ]

  -- The part of `LoadMultiboot` behind the allocation of the block at `mem`.
  pub read_block : MultibootHeader → ℕ → ℕ → ℕ → ℕ → ℕ → F → Machine H W → Outcome × Machine H W
  read_block h offset load_end bss_end size mem f s =
      let (moved, w) = io.set_file_pointer f offset s.world in
      let s : Machine H W = record s { world = w } in
      let count = min (sub32 load_end h.load_addr) size in
      let (bytes, w') = io.read_file f count s.world in
      let s' : Machine H W = record s { memory = store mem bytes s.memory; world = w' } in
      let zeros = sub64 bss_end (add64 h.load_addr count) % 2 ^ 32 in
      if not moved
      then (refused, give_back mem (sub64 bss_end h.load_addr) (fail ecorrupt s))
      else if length bytes == count
      then (placed h.entry_addr, record s' { memory = clear (mem + count) zeros s'.memory })
      else (refused, give_back mem (sub32 bss_end h.load_addr) (fail eio s'))

  -- `LoadMultiboot` up to the modules, for the header that was found, if any.
  pub place_multiboot : Option (ℕ × MultibootHeader) → F → Machine H W → Outcome × Machine H W
  place_multiboot found f s = elim found [
    | none ↦ (not_mine, s)
    | some (at, h) ↦
        let size = io.file_size f s.world in
        let offset = sub64 at (sub32 h.header_addr h.load_addr) in
        if not (has_address h) then (not_mine, s) else elim (validate_addresses h at size) [
          | none ↦ (refused, fail ecorrupt s)
          | some (load_end, bss_end) ↦
              let (mem, _, regions, heap) =
                phys_alloc a h.load_addr (sub32 bss_end h.load_addr) 0 s.regions s.heap in
              let s : Machine H W = record s { regions = regions; heap = heap } in
              elim mem [
                | none ↦ (refused, fail enomem s)
                | some p ↦ read_block h offset load_end bss_end size p f s
              ]
        ]
  ]

  -- The part of `LoadBinary` behind the allocation, and the whole up to the modules.
  pub read_binary : ℕ → ℕ → F → Machine H W → Outcome × Machine H W
  read_binary size mem f s =
      let (moved, w) = io.set_file_pointer f 0 s.world in
      let s : Machine H W = record s { world = w } in
      let (bytes, w') = io.read_file f size s.world in
      let s' : Machine H W = record s { memory = store mem bytes s.memory; world = w' } in
      if not moved
      then (refused, give_back mem size (fail efault s))
      else if length bytes == size
      then (placed mem, s')
      else (refused, give_back mem size s')

  pub place_binary : ℕ → F → Machine H W → Outcome × Machine H W
  place_binary address f s =
      let size = io.file_size f s.world in
      let (mem, _, regions, heap) = phys_alloc a address size 0 s.regions s.heap in
      let s' : Machine H W = record s { regions = regions; heap = heap } in
      if address == 0
      then (not_mine, s)
      else elim mem [ none ↦ (refused, fail enomem s') | some p ↦ read_binary size p f s' ]

  -- `LoadMultiboot` and `LoadBinary`: the modules, and the jump into the image, which is `call` and should not
  -- return; TRUE if another loader may try.
  pub load_multiboot :
      (ℕ → List Module → Machine H W → Machine H W)
      → Option (ℕ × MultibootHeader)
      → Bool
      → List Module
      → F
      → Machine H W
      → Bool × Machine H W
  load_multiboot call found page_align modules f s =
      let (outcome, s) = place_multiboot found f s in
      let (ms, s') = load_modules a io page_align modules s in
      elim outcome [
        | not_mine ↦ (true, s)
        | refused ↦ (false, s)
        | placed entry ↦ (false, fail efault (call entry ms s'))
      ]

  pub load_binary :
      (ℕ → List Module → Machine H W → Machine H W)
      → ℕ
      → Bool
      → List Module
      → F
      → Machine H W
      → Bool × Machine H W
  load_binary call address page_align modules f s =
      let (outcome, s) = place_binary address f s in
      let (ms, s') = load_modules a io page_align modules s in
      elim outcome [
        | not_mine ↦ (true, s)
        | refused ↦ (false, s)
        | placed entry ↦ (false, call entry ms s')
      ]
