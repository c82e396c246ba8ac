-- ===== src/Platform.antt =====
-- What the C code takes from its platform: the size of a pointer, which `sizeof` yields where the
-- code applies it to one, and the allocator's answers.
use smtp_nel_filter.Prelude.{ℕ, Bool}

-- `malloc n` says whether a request for `n` bytes succeeds.
pub record Platform : Type 0 where
  pub sizeof_ptr : ℕ
  pub malloc : ℕ → Bool

-- A 32-bit and a 64-bit platform that never run out of memory.
abbrev pub ilp32 : Platform
ilp32 = record { sizeof_ptr = 4; malloc = λ _. Bool.true }

abbrev pub lp64 : Platform
lp64 = record { sizeof_ptr = 8; malloc = λ _. Bool.true }
