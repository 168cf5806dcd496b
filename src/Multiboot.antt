-- ===== src/Multiboot.antt =====
-- `LoadModules` of src/multiboot.c: the modules of an image are loaded into free physical memory.
pub mod Place
pub mod Modules
mod Tests
use osldr.Base.{
  ℕ, zero, suc, ◌+◌, ◌-◌, ◌*◌, ◌/◌, ◌%◌, ◌≤◌, ◌<◌, ◌^◌, min, max, ◌⊎◌, ◌↔◌, ◌≡◌, ◌≢◌, inl, inr,
  refl, sym, ap, ◌∙◌, Bool, true, false, not, ◌&&◌, ◌||◌, Option, none, some, List, [], ◌∷◌, ◌++◌,
  map, Bool-cases, Option-cases, leb, ltb, ◌==◌, if◌then◌else◌, add32, sub32, mul32, add64, sub64,
  mul64, arith, dec_le, dec_lt, ℕ_discrete, length, get_elem?, get_or, set, take, drop, replicate,
  Bytes, bit_and, bit_or, bit_xor,
}
use osldr.Allocator.{Allocator}
use osldr.Files.{Files, Machine, store}
use osldr.Mem.{PhysMem, phys_alloc, phys_free}
use osldr.Io.Errno.{ezero}

-- `MODULE`: the string with its address, and the addresses between which the module stands.
pub record Module : Type 0 where
  pub start : ℕ
  pub end : ℕ
  pub text : Bytes
  pub string : Option ℕ

-- `strchr( String, ' ' )`: what stands before the first space, and behind it.
pub cut_path : Bytes → Bytes × Option Bytes
cut_path [] = ([], none)
cut_path (c ∷ cs) =
    let (path, rest) = cut_path cs in if c == 32 then ([], some cs) else (c ∷ path, rest)

-- How many spaces a string begins with.
pub spaces : Bytes → ℕ
spaces [] = 0
spaces (c ∷ cs) = let rest = spaces cs in if c == 32 then 1 + rest else 0

-- The string of a module that has been loaded: its arguments, or NULL and the path is given back.
pub adjust_string : {H : Type 0} → Allocator H → Module → H → Module × H
adjust_string a m h = elim m.string [
  | none ↦ (m, h)
  | some string ↦
      let (path, arguments) = cut_path m.text in
      elim arguments [
        | none ↦ (record m { text = []; string = none }, a.free string h)
        | some rest ↦ (
          record m {
            text = drop (spaces rest) rest;
            string = some (string + length path + 1 + spaces rest);
          },
          h,
        )
      ]
]

module _ {H F W : Type 0} (a : Allocator H) (io : Files F W) where
  -- The reading of an open file into memory from `PhysAlloc`, for a size.
  pub place_sized : Bool → ℕ → F → Machine H W → Option ℕ × Machine H W
  place_sized page_align size f s =
      let (address, _, regions, heap) =
        phys_alloc a 0 size (if page_align then 4096 else 0) s.regions s.heap in
      let s : Machine H W = record s { regions = regions; heap = heap } in
      elim address [
        | none ↦ (none, s)
        | some p ↦
            let (bytes, w) = io.read_file f size s.world in
            let s : Machine H W = record s { memory = store p bytes s.memory; world = w } in
            let (regions', heap') = phys_free a p size s.regions s.heap in
            if length bytes == size
            then (some p, s)
            else (none, record s { regions = regions'; heap = heap' })
      ]

  pub place_file : Bool → F → Machine H W → Option ℕ × Machine H W
  place_file page_align f s =
      let size = io.file_size f s.world in
      let placed = place_sized page_align size f s in
      if leb size 0xFFFFFFFF then placed else (none, s)

  -- The body of the loop; a module that cannot be loaded is left out, and the error is cleared.
  pub load_module : Bool → Module → Machine H W → Option Module × Machine H W
  load_module page_align m s =
      let (file, w) = io.open_file (cut_path m.text).0 s.world in
      let s : Machine H W = record s { world = w } in
      elim file [
        | none ↦ (none, record s { world = io.set_errno ezero w })
        | some f ↦
            let size = io.file_size f w in
            let (placed, s) = place_file page_align f s in
            elim placed [
              | none ↦ (none, record s { world = io.set_errno ezero (io.close_file f s.world) })
              | some p ↦
                  let (m, heap) =
                    adjust_string a (record m { start = p; end = add32 p (size % 2 ^ 32) })
                      s.heap in
                  (some m, record s { heap = heap; world = io.close_file f s.world })
            ]
      ]

  -- The modules that are left, in their order; their number is `ModuleCount`.
  pub load_modules : Bool → List Module → Machine H W → List Module × Machine H W
  load_modules page_align [] s = ([], s)
  load_modules page_align (m ∷ ms) s =
      let (loaded, s) = load_module page_align m s in
      let (rest, s) = load_modules page_align ms s in
      (elim loaded [ none ↦ rest | some m ↦ m ∷ rest ], s)
