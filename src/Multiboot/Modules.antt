-- ===== src/Multiboot/Modules.antt =====
-- The modules of `LoadModules` and the memory for them.
use osldr.Base.{
  ℕ, ◌+◌, ◌%◌, ◌≤◌, ◌<◌, ◌^◌, ◌≡◌, inl, inr, refl, Bool, Option, some, List, [], ◌∷◌, Option-cases,
  add32, sub32, arith,
}
use osldr.Allocator.{Allocator}
use osldr.Files.{Files, ReadsAtMost, Machine}
use osldr.Mem.{PhysMem}
use osldr.Mem.Region.{Covers, IsValid}
use osldr.Io.Errno.{ezero}
use osldr.Multiboot.{Module, cut_path, place_file, load_module, load_modules, adjust_string}
use osldr.Multiboot.Place.{Within, Within-trans, Within-heap, place_file-Within}

-- How long a module is in memory.
abbrev pub module_size : Module → ℕ
module_size m = sub32 m.end m.start

-- The bytes of a module.
abbrev pub In : Module → ℕ → Type 0
In m x = (m.start ≤ x) × (x < m.start + module_size m)

-- Of each module, all bytes were free in the one list and none is in the other; no two have a byte in common.
abbrev pub AllTook : List PhysMem → List PhysMem → List Module → Type 0
AllTook l l' [] = Unit
AllTook l l' (m ∷ ms) = ((x : ℕ) → In m x → Covers l x × (¬ Covers l' x)) × AllTook l l' ms

abbrev pub NoneMeets : Module → List Module → Type 0
NoneMeets m [] = Unit
NoneMeets m (k ∷ ks) = ((x : ℕ) → In m x → ¬ In k x) × NoneMeets m ks

abbrev pub AllDisjoint : List Module → Type 0
AllDisjoint [] = Unit
AllDisjoint (m ∷ ms) = NoneMeets m ms × AllDisjoint ms

adjusted-place :
    {H : Type 0} (a : Allocator H) (m : Module) (h : H)
    → ((adjust_string a m h).0.start ≡ m.start) × ((adjust_string a m h).0.end ≡ m.end)
unfolding adjust_string
adjusted-place a m h = elim (Option-cases m.string) [
  | inl e ↦ rw (adjust_string, e) (refl, refl)
  | inr (string, e) ↦ elim (Option-cases (cut_path m.text).1) [
    | inl e' ↦ rw (adjust_string, e, e') (refl, refl)
    | inr (rest, e') ↦ rw (adjust_string, e, e') (refl, refl)
  ]
]

module _ {H F W : Type 0} (a : Allocator H) (io : Files F W) (short : ReadsAtMost F W io) where
  abbrev Step : Option Module × Machine H W → Machine H W → Type 0
  Step r s =
      Within s r.1
      × ((m : Module)
          → r.0 ≡ some m
          → (x : ℕ) → In m x
          → Covers s.regions x × (¬ Covers r.1.regions x))

  load_module-Within :
      (page_align : Bool) (m : Module) (s : Machine H W)
      → IsValid s.regions
      → Step (load_module a io page_align m s) s
  unfolding load_module
  load_module-Within page_align m s v =
      let (file, w) = io.open_file (cut_path m.text).0 s.world in
      let s0 : Machine H W = record s { world = w } in
      let nothing : (w' : W) → Within s (record s { world = w' }) =
        λ w'. record { valid = v; was_free = λ x c. c; kept = λ x out. refl } in
      elim (Option-cases file) [
        | inl e ↦
            rw (load_module, e)
              (nothing (io.set_errno ezero w), λ k none_left. absurd (cc none_left))
        | inr (f, e) ↦
            let (within, took) = place_file-Within a io short page_align f s0 v in
            let s1 = (place_file a io page_align f s0).1 in
            let from_s : Within s s1 = record {
              valid = within.valid;
              was_free = within.was_free;
              kept = within.kept;
            } in
            elim (Option-cases (place_file a io page_align f s0).0) [
              | inl failed ↦
                  rw (load_module, e, failed)
                    (Within-heap s s1 _ _ from_s, λ k none_left. absurd (cc none_left))
              | inr (p, placed) ↦
                  rw (load_module, e, placed)
                    (
                      Within-heap s s1 _ _ from_s,
                      λ k some_k x i.
                          let (small, low, block) = took p placed in
                          let m' : Module = record m {
                            start = p;
                            end = add32 p (io.file_size f w % 2 ^ 32);
                          } in
                          let h' = (place_file a io page_align f s0).1.heap in
                          let same : (adjust_string a m' h').0 ≡ k = cc some_k in
                          let (start, end) = adjusted-place a m' h' in
                          let start' = rw same at start in
                          let end' = rw same at end in
                          let size : module_size k ≡ io.file_size f w =
                            rw (start', end') (omega (arith, small, low)) in
                          block x (omega (arith, i, start')) (omega (arith, i, start', size)),
                    )
            ]
      ]

  AllTook-earlier :
      (l l' l'' : List PhysMem) (ms : List Module)
      → ((x : ℕ) → Covers l' x → Covers l x)
      → AllTook l' l'' ms
      → AllTook l l'' ms
  AllTook-earlier l l' l'' [] sub t = tt
  AllTook-earlier l l' l'' (m ∷ ms) sub t =
      (λ x i. (sub x (t.0 x i).0, (t.0 x i).1), AllTook-earlier l l' l'' ms sub t.1)

  NoneMeets-AllTook :
      (l' l'' : List PhysMem) (m : Module) (ms : List Module)
      → ((x : ℕ) → In m x → ¬ Covers l' x)
      → AllTook l' l'' ms
      → NoneMeets m ms
  NoneMeets-AllTook l' l'' m [] out t = tt
  NoneMeets-AllTook l' l'' m (k ∷ ks) out t =
      (λ x i j. out x i (t.0 x j).0, NoneMeets-AllTook l' l'' m ks out t.1)

  -- `LoadModules` on a well-formed list of free memory, if `ReadFile` stores no more than was asked for: the list is
  -- well-formed again and holds nothing that it did not hold before; each byte of each loaded module was
  -- free before and is not any more, no two modules share a byte, and memory that was not free is as before.
  pub load_modules-Within :
      (page_align : Bool) (ms : List Module) (s : Machine H W)
      → IsValid s.regions
      → let (loaded, s') = load_modules a io page_align ms s in
        Within s s' × AllTook s.regions s'.regions loaded × AllDisjoint loaded
  unfolding load_modules
  load_modules-Within page_align [] s v =
      (record { valid = v; was_free = λ x c. c; kept = λ x out. refl }, tt, tt)
  load_modules-Within page_align (m ∷ ms) s v =
      let (within, took) = load_module-Within page_align m s v in
      let s1 = (load_module a io page_align m s).1 in
      let (within', all, apart) = load_modules-Within page_align ms s1 within.valid in
      let s2 = (load_modules a io page_align ms s1).1 in
      let both = Within-trans s s1 s2 within within' in
      let earlier =
        AllTook-earlier s.regions s1.regions s2.regions (load_modules a io page_align ms s1).0
          within.was_free all in
      elim (Option-cases (load_module a io page_align m s).0) [
        | inl e ↦ rw (load_modules, e) (both, earlier, apart)
        | inr (k, e) ↦
            let took' = took k e in
            rw (load_modules, e)
              (
                both,
                (λ x i. ((took' x i).0, λ c. (took' x i).1 (within'.was_free x c)), earlier),
                (
                  NoneMeets-AllTook s1.regions s2.regions k (load_modules a io page_align ms s1).0
                      (λ x i. (took' x i).1) all,
                  apart,
                ),
              )
      ]
