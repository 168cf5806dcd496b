-- ===== src/Allocator.antt =====
-- What the rest of the program asks of the heap of src/stdlib.c: `malloc` and `free` over a heap
-- state `H`. An address is a number; `none` is NULL.
use osldr.Base.{ℕ, Option}

pub record Allocator (H : Type 0) : Type 0 where
  pub malloc : ℕ → H → Option ℕ × H
  pub free : ℕ → H → H
