-- ===== src/Mem.antt =====
-- The physical memory manager of src/mem.c: the free list `PhysMem` and the functions on it.
-- A node of the list is its address and size; the links `Prev` and `Next` are the list itself, so
-- that to unlink a node is to leave it out.
pub mod Region
pub mod Cover
pub mod Add
pub mod Alloc
pub mod Align
pub mod Free
pub mod Room
mod Tests
use osldr.Base.{
  ℕ, ◌+◌, ◌-◌, ◌/◌, ◌*◌, ◌^◌, Bool, true, false, ◌&&◌, Option, none, some, List, [], ◌∷◌, ltb, leb,
  ◌==◌, if◌then◌else◌, add64, sub64, bit_and, sub32, not, ◌%◌,
}
use osldr.Allocator.{Allocator}
use osldr.Io.Errno.{enomem}
use mathlib.Core.Option

-- `PHYSMEM`
pub record PhysMem : Type 0 where
  pub address : ℕ
  pub size : ℕ

abbrev pub one_mb : ℕ
one_mb = 0x100000

-- `sizeof(PHYSMEM)` with the 4-byte pointers of i386
abbrev pub sizeof_phys_mem : ℕ
sizeof_phys_mem = 24

-- The new region ends inside `cur`: it is extended downwards.
abbrev hull_down : ℕ → PhysMem → PhysMem
hull_down start cur =
    let start' = if ltb start cur.address then start else cur.address in
    record { address = start'; size = sub64 (add64 cur.address cur.size) start' }

-- The body of the loop in `AddToPhysList`: the node as it is left before `break`, if it breaks.
pub join : ℕ → ℕ → PhysMem → Option PhysMem
join start length cur =
    if leb cur.address start && leb start (add64 cur.address cur.size)
    then some (record cur {
      size =
          let reach = sub64 (add64 start length) cur.address in
          if ltb reach cur.size then cur.size else reach;
    })
    else if leb cur.address (add64 start length)
        && leb (add64 start length) (add64 cur.address cur.size)
    then some (hull_down start cur)
    else if ltb start cur.address && ltb (add64 cur.address cur.size) (add64 start length)
    then some (record { address = start; size = length })
    else none

-- The loop over the list; `none` when `cur` has become NULL.
pub join_first : ℕ → ℕ → List PhysMem → Option (List PhysMem)
join_first start length [] = none
join_first start length (cur ∷ rest) = elim (join start length cur) [
  | some cur' ↦ some (cur' ∷ rest)
  | none ↦ Option.map (λ rest'. cur ∷ rest') (join_first start length rest)
]

module _ {H : Type 0} (a : Allocator H) where
  -- After the clipping to 1 MB: join, or a new node at the head.
  pub insert : ℕ → ℕ → List PhysMem → H → Bool × List PhysMem × H
  insert start length l h = elim (join_first start length l) [
    | some l' ↦ (true, l', h)
    | none ↦
        let (newmem, h') = a.malloc sizeof_phys_mem h in
        elim newmem [
          | none ↦ (false, l, h')
          | some _ ↦ (true, record { address = start; size = length } ∷ l, h')
        ]
  ]

  -- `AddToPhysList`
  pub add_to_phys_list : ℕ → ℕ → List PhysMem → H → Bool × List PhysMem × H
  add_to_phys_list start length l h =
      if leb (add64 start length) one_mb
      then (true, l, h)
      else if ltb start one_mb
      then insert one_mb (sub64 (add64 start length) one_mb) l h
      else insert start length l h

-- What `PhysAlloc` finds: the address, the list with the node cut, and the part behind the
-- allocation that is still to be added.
pub record Found : Type 0 where
  pub start : ℕ
  pub regions : List PhysMem
  pub after : ℕ × ℕ

-- The body of the loop in `PhysAlloc` once a region fits, up to the call of `AddToPhysList`; an
-- `after` of size 0 stands for no call.
pub carve : PhysMem → List PhysMem → ℕ → ℕ → Found
carve cur rest start size =
    let before = sub64 start cur.address in
    let after = sub64 (add64 cur.address cur.size) (add64 start size) in
    if not (before == 0)
    then record {
      start = start;
      regions = record cur { size = before } ∷ rest;
      after = (add64 start size, after);
    }
    else if not (after == 0)
    then record {
      start = start;
      regions = record { address = add64 start size; size = after } ∷ rest;
      after = (0, 0);
    }
    else record { start = start; regions = rest; after = (0, 0) }

-- `(cur->Address + Alignment - 1) & -Alignment`: `Alignment` is a ULONG, so its negation is taken
-- in 32 bits and widened with zeros.
pub align_up : ℕ → ℕ → ℕ
align_up address alignment = bit_and (sub64 (add64 address alignment) 1) (sub32 0 alignment)

-- Which start address to use in a region.
pub start_in : ℕ → ℕ → PhysMem → ℕ
start_in start alignment cur = if not (start == 0) then start else align_up cur.address alignment

-- The test of `PhysAlloc` on one region.
pub fits : ℕ → ℕ → PhysMem → Bool
fits start size cur = leb cur.address start && leb (add64 start size) (add64 cur.address cur.size)

-- The loop of `PhysAlloc`: the first region that fits.
pub find_region : ℕ → ℕ → ℕ → List PhysMem → Option Found
find_region start size alignment [] = none
find_region start size alignment (cur ∷ rest) =
    let start' = start_in start alignment cur in
    elim (fits start' size cur) [
      | true ↦ some (carve cur rest start' size)
      | false ↦
          Option.map (λ (f : Found). record f { regions = cur ∷ f.regions })
            (find_region start size alignment rest)
    ]

-- `(Size + 3) & -4`: -4 is sign-extended to 64 bits.
pub align_size : ℕ → ℕ
align_size size = add64 size 3 / 4 * 4

module _ {H : Type 0} (a : Allocator H) where
  -- The return value, the new value of `errno` if it is set, the list, and the heap. The result of
  -- `AddToPhysList` is not looked at, as in the source.
  pub phys_alloc : ℕ → ℕ → ℕ → List PhysMem → H → Option ℕ × Option ℕ × List PhysMem × H
  phys_alloc start size alignment l h =
      let alignment' = if alignment == 0 then 1 else alignment in
      let size' = align_size size in
      if size' == 0 then (none, none, l, h) else elim (find_region start size' alignment' l) [
        | none ↦ (none, some enomem, l, h)
        | some f ↦
            if f.after.1 == 0
            then (some (f.start % 2 ^ 32), none, f.regions, h)
            else let (_, l', h') = add_to_phys_list a f.after.0 f.after.1 f.regions h in
              (some (f.start % 2 ^ 32), none, l', h')
      ]

  -- `PhysFree`
  pub phys_free : ℕ → ℕ → List PhysMem → H → List PhysMem × H
  phys_free address size l h =
      let (_, l', h') = add_to_phys_list a (address % 2 ^ 32) size l h in (l', h')

  -- The loop of `PhysInit` over the entries of the memory map, as start, length and type.
  pub add_map : List (ℕ × ℕ × ℕ) → List PhysMem → H → Bool × List PhysMem × H
  add_map [] l h = (true, l, h)
  add_map ((start, length, kind) ∷ m) l h = elim (kind == 1) [
    | true ↦
        let (ok, l', h') = add_to_phys_list a start length l h in
        elim ok [ true ↦ add_map m l' h' | false ↦ (false, l', h') ]
    | false ↦ add_map m l h
  ]

  -- `PhysInit`: the memory map if its flag is set, then `MemUpper` if its flag is set.
  pub phys_init : Option (List (ℕ × ℕ × ℕ)) → Option ℕ → H → Bool × List PhysMem × H
  phys_init memory_map mem_upper h =
      let mapped : Bool × List PhysMem × H = elim memory_map [
        | none ↦ (true, [], h)
        | some m ↦ add_map m [] h
      ] in
      let (ok, l, h') = mapped in
      elim ok [
        | false ↦ (false, l, h')
        | true ↦ elim mem_upper [
          | none ↦ (true, l, h')
          | some upper ↦ add_to_phys_list a one_mb upper l h'
        ]
      ]
