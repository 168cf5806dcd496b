-- ===== src/Loader/Tests.antt =====
-- Runs of the loaders, and their theorems on a small image.
use osldr.Base.{
  ℕ, ◌+◌, ◌⊎◌, ◌≡◌, refl, true, none, some, [], ◌∷◌, ◌++◌, arith, take, drop, replicate, Bytes,
}
use osldr.Base.{length-take}
use osldr.Allocator.{Allocator}
use osldr.Files.{Files, ReadsAtMost, Machine}
use osldr.Mem.Region.{IsValid}
use osldr.Loader.{
  MultibootHeader, is_header, search_header, find_header, read_multiboot_header, validate_addresses,
  placed, place_multiboot, place_binary,
}
use osldr.Loader.Header.{NoneBelow, First, find_header-First}
use osldr.Loader.Image.{Fields32, Placed, place_multiboot-Within, place_binary-Within}
use osldr.Multiboot.Place.{Within, Took}

-- An image with a Multiboot header at its fifth byte.
abbrev image : Bytes
image =
    replicate 4 0
    ++ ((0x02 ∷ 0xB0 ∷ 0xAD ∷ 0x1B ∷ [])
        ++ ((0 ∷ 0 ∷ 1 ∷ 0 ∷ [])
            ++ ((0xFE ∷ 0x4F ∷ 0x51 ∷ 0xE4 ∷ [])
                ++ ((4 ∷ 0 ∷ 0x10 ∷ 0 ∷ [])
                    ++ ((0 ∷ 0 ∷ 0x10 ∷ 0 ∷ [])
                        ++ (replicate 8 0 ++ ((0x20 ∷ 0 ∷ 0x10 ∷ 0 ∷ []) ++ replicate 24 0)))))))

abbrev header : MultibootHeader
header = record {
  magic = 0x1BADB002;
  flags = 0x10000;
  checksum = 0xE4514FFE;
  header_addr = 0x100004;
  load_addr = 0x100000;
  load_end_addr = 0;
  bss_end_addr = 0;
  entry_addr = 0x100020;
}

find_header_run : find_header image ≡ some (4, header)
unfolding find_header search_header is_header
find_header_run = refl

-- The last header that would fit is not found.
find_header_end : find_header (take 52 image) ≡ none
unfolding find_header search_header is_header
find_header_end = refl

find_header-First_example :
    (find_header image ≡ none) × ((n : ℕ) → NoneBelow image n) ⊎ First image 0 (find_header image)
find_header-First_example = find_header-First image

validate_addresses_run : validate_addresses header 4 60 ≡ some (0x10003C, 0x10003C)
unfolding validate_addresses
validate_addresses_run = refl

-- A heap that never ends, and a disk with this one file, whose state is the file pointer.
abbrev heap : Allocator ℕ
heap = record { malloc = λ n h. (some h, h + n); free = λ p h. h }

abbrev disk : Files ℕ ℕ
disk = record {
  open_file = λ path w. (some 0, 0);
  close_file = λ f w. w;
  file_size = λ f w. 60;
  set_file_pointer = λ f n w. (true, n);
  read_file = λ f n w. (take n (drop w image), w + n);
  set_errno = λ e w. w;
}

disk-ReadsAtMost : ReadsAtMost ℕ ℕ disk
disk-ReadsAtMost f n w = omega (arith, length-take n (drop w image))

abbrev machine : Machine ℕ ℕ
machine = record {
  memory = λ x. 0;
  regions = record { address = 0x100000; size = 0x5000 } ∷ [];
  heap = 0;
  world = 0;
}

machine-IsValid : IsValid machine.regions
machine-IsValid =
    (record { above = omega arith; not_empty = omega arith; fits = omega arith }, tt, tt)

read_multiboot_header_run : (read_multiboot_header heap disk 0 machine).1 ≡ some (4, header)
unfolding read_multiboot_header find_header search_header is_header
read_multiboot_header_run = refl

header-Fields32 : Fields32 header
header-Fields32 = record {
  header_addr = omega arith;
  load_addr = omega arith;
  load_end_addr = omega arith;
  bss_end_addr = omega arith;
}

place_multiboot-Within_example :
    let (outcome, s') = place_multiboot heap disk (some (4, header)) 0 machine in
    Within machine s'
    × ((entry : ℕ) → outcome ≡ placed entry → (entry ≡ 0x100020) × Placed header 4 60 machine s')
place_multiboot-Within_example =
    place_multiboot-Within heap disk disk-ReadsAtMost 4 header 0 machine machine-IsValid
      header-Fields32 (omega arith) (omega arith)

place_binary-Within_example :
    let (outcome, s') = place_binary heap disk 0x101000 0 machine in
    Within machine s' × ((entry : ℕ) → outcome ≡ placed entry → Took machine s' entry 60)
place_binary-Within_example =
    place_binary-Within heap disk disk-ReadsAtMost 0x101000 0 machine machine-IsValid (omega arith)
      (omega arith)
