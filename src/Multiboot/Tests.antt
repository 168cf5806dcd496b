-- ===== src/Multiboot/Tests.antt =====
-- Runs of `LoadModules`, and its theorem on two modules.
use osldr.Base.{
  ℕ, zero, suc, ◌+◌, min, ◌≡◌, refl, true, false, none, some, List, [], ◌∷◌, ◌==◌, if◌then◌else◌,
  arith, length, get_or, replicate, Bytes,
}
use osldr.Allocator.{Allocator}
use osldr.Files.{Files, ReadsAtMost, Machine}
use osldr.Mem.Region.{IsValid}
use osldr.Multiboot.{Module, cut_path, spaces, adjust_string, load_modules}
use osldr.Multiboot.Place.{Within}
use osldr.Multiboot.Modules.{AllTook, AllDisjoint, load_modules-Within}

-- A heap that never ends, and a disk on which each path of one byte is a file of as many bytes as that byte says.
abbrev heap : Allocator ℕ
heap = record { malloc = λ n h. (some h, h + n); free = λ p h. h }

abbrev contents : ℕ → ℕ → Bytes
contents f n = replicate (min f n) 65

abbrev disk : Files ℕ ℕ
disk = record {
  open_file = λ path w. if length path == 1 then (some (get_or path 0 0), w) else (none, 2);
  close_file = λ f w. w;
  file_size = λ f w. f;
  set_file_pointer = λ f n w. (true, w);
  read_file = λ f n w. (contents f n, w);
  set_errno = λ e w. e;
}

length-replicate : (n b : ℕ) → length (replicate n b) ≡ n
length-replicate zero b = refl
length-replicate (suc n) b = omega (arith, length-replicate n b)

disk-ReadsAtMost : ReadsAtMost ℕ ℕ disk
disk-ReadsAtMost f n w = omega (arith, length-replicate (min f n) 65)

abbrev machine : Machine ℕ ℕ
machine = record {
  memory = λ x. 0;
  regions = record { address = 0x100000; size = 0x5000 } ∷ [];
  heap = 0;
  world = 0;
}

machine-IsValid : IsValid machine.regions
machine-IsValid =
    (record { above = omega arith; not_empty = omega arith; fits = omega arith }, tt, tt)

-- Of the three modules, the second one does not exist.
abbrev three_modules : List Module
three_modules =
    record { start = 0; end = 0; text = 8 ∷ 32 ∷ 32 ∷ 97 ∷ []; string = some 5000 }
    ∷ record { start = 0; end = 0; text = 8 ∷ 9 ∷ []; string = some 6000 }
    ∷ record { start = 0; end = 0; text = 12 ∷ []; string = some 7000 }
    ∷ []

adjust_string_run :
    adjust_string heap
      (record { start = 1; end = 2; text = 8 ∷ 32 ∷ 32 ∷ 97 ∷ []; string = some 5000 })
      0
    ≡ (record { start = 1; end = 2; text = 97 ∷ []; string = some 5003 }, 0)
unfolding adjust_string cut_path spaces
adjust_string_run = refl

load_modules-Within_example :
    let (loaded, s') = load_modules heap disk false three_modules machine in
    Within machine s' × AllTook machine.regions s'.regions loaded × AllDisjoint loaded
load_modules-Within_example =
    load_modules-Within heap disk disk-ReadsAtMost false three_modules machine machine-IsValid
