-- ===== src/Tests/MemPool.antt =====
-- A pool of blocks on concrete inputs.
use smtp_nel_filter.Prelude.{ℕ, Bool, true, [], ◌∷◌, refl}
use smtp_nel_filter.MemPool.{
  push, alloc_blocks, create_mem_pool, take_head, obj_alloc_from_pool, alloc_or_more, alloc_mem,
  free_mem,
}
use smtp_nel_filter.MemPool.Invariant.{
  Use, Reachable, created, got, freed, IsSound, Reachable-IsSound,
}

abbrev granted : ℕ → Bool
granted n = true

-- Two blocks, of which the second one made is taken and given back.
abbrev used : Use
used = record {
  heap = record { pool = record { head = 1 ∷ 0 ∷ []; size = 8; num = 2 }; requests = 2 };
  held = [];
}

used-Reachable : Reachable granted used
unfolding alloc_blocks create_mem_pool push take_head obj_alloc_from_pool alloc_or_more alloc_mem
    free_mem
used-Reachable = freed [] 1 [] (got (created 8 2) refl) refl

Reachable-IsSound_example : IsSound granted used
Reachable-IsSound_example = Reachable-IsSound granted used used-Reachable
