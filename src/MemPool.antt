-- ===== src/MemPool.antt =====
-- src/mem_pool/mem_pool.c: pools of blocks of one size. A block is the number of the malloc that made
-- it; the lock has no counterpart, since one thread runs.
pub mod Invariant
use smtp_nel_filter.Prelude.{
  ℕ, zero, suc, ◌-◌, Bool, true, false, ltb, if◌then◌else◌, Option, none, some, List, [], ◌∷◌,
}

-- The free blocks, first the one at `head`.
pub record ObjPool : Type 0 where
  pub head : List ℕ
  pub size : ℕ
  pub num : ℕ

-- `requests` counts the calls of malloc so far.
pub record Heap : Type 0 where
  pub pool : ObjPool
  pub requests : ℕ

unfoldable pub push : ObjPool → ℕ → ObjPool
push p block = record { head = block ∷ p.head; size = p.size; num = suc p.num }

-- The loop of __objPool_create and of __objPool_alloc_more: it ends where malloc fails.
unfoldable pub alloc_blocks : (ℕ → Bool) → ℕ → Heap → Heap
alloc_blocks grants zero h = h
alloc_blocks grants (suc max) h =
    let more =
      alloc_blocks grants max
        (record { pool = push h.pool h.requests; requests = suc h.requests }) in
    if grants h.requests then more else record { pool = h.pool; requests = suc h.requests }

-- create_mem_pool
unfoldable pub create_mem_pool : (ℕ → Bool) → ℕ → ℕ → ℕ → Heap
create_mem_pool grants elm_len max_len requests =
    alloc_blocks grants max_len
      (record { pool = record { head = []; size = elm_len; num = 0 }; requests = requests })

-- What __obj_alloc_fromPool does: a null pointer, a block, or a crash where `num` promises a block
-- that is not there.
pub data Taken : Type 0 where
  null : Taken
  block : ℕ → ObjPool → Taken
  crash : Taken

unfoldable pub take_head : ObjPool → List ℕ → Taken
take_head p [] = crash
take_head p (b ∷ next) = block b (record { head = next; size = p.size; num = p.num - 1 })

unfoldable pub obj_alloc_from_pool : ObjPool → Taken
obj_alloc_from_pool p = if ltb 0 p.num then take_head p p.head else null

-- The result of alloc_mem, with the heap behind it.
pub data Allocated : Type 0 where
  returns : Option ℕ → Heap → Allocated
  crashes : Allocated

unfoldable pub allocated : Heap → Taken → Allocated
allocated h null = returns none h
allocated h (block b p) = returns (some b) (record { pool = p; requests = h.requests })
allocated h crash = crashes

abbrev pub mem_pool_realloc_len : ℕ
mem_pool_realloc_len = 10

-- `if (__objPool_alloc_more (...) > 0)` another attempt.
unfoldable pub alloc_more : Heap → Allocated
alloc_more h = if ltb 0 h.pool.num then allocated h (obj_alloc_from_pool h.pool) else returns none h

unfoldable pub alloc_or_more : (ℕ → Bool) → Heap → Taken → Allocated
alloc_or_more grants h null = alloc_more (alloc_blocks grants mem_pool_realloc_len h)
alloc_or_more grants h (block b p) = returns (some b) (record { pool = p; requests = h.requests })
alloc_or_more grants h crash = crashes

unfoldable pub alloc_mem : (ℕ → Bool) → Heap → Allocated
alloc_mem grants h = alloc_or_more grants h (obj_alloc_from_pool h.pool)

-- A null pointer is not kept.
unfoldable pub free_mem : Heap → Option ℕ → Heap
free_mem h none = h
free_mem h (some b) = record { pool = push h.pool b; requests = h.requests }

-- The loop of __objPool_destroy; `none` is a crash where `num` promises more blocks than there are.
unfoldable pub destroy_blocks : ℕ → List ℕ → Option (List ℕ)
destroy_blocks zero free = some free
destroy_blocks (suc num) [] = none
destroy_blocks (suc num) (b ∷ next) = destroy_blocks num next

abbrev pub emptied : ObjPool → Option (List ℕ) → Option ObjPool
emptied p none = none
emptied p (some free) = some (record { head = free; size = p.size; num = 0 })

unfoldable pub destroy_mem_pool : ObjPool → Option ObjPool
destroy_mem_pool p = emptied p (destroy_blocks p.num p.head)
