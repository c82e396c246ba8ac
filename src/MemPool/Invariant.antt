-- ===== src/MemPool/Invariant.antt =====
-- Blocks are neither lost nor handed out twice.
use mathlib.Core.Path.{subst}
use smtp_nel_filter.Prelude.{
  ℕ, zero, suc, ◌+◌, ◌-◌, Bool, true, false, ltb, ◌==◌, if◌then◌else◌, Bool-cases, ◌⊎◌, inl, inr,
  none, some, List, [], ◌∷◌, ◌++◌, ◌≡◌, ◌≢◌, refl, sym, ap, ◌∙◌, arith, length,
}
use smtp_nel_filter.MemPool.{
  ObjPool, Heap, push, alloc_blocks, create_mem_pool, null, block, take_head, obj_alloc_from_pool,
  Allocated, returns, crashes, allocated, mem_pool_realloc_len, alloc_more, alloc_or_more,
  alloc_mem, free_mem,
}

unfoldable pub count : ℕ → List ℕ → ℕ
count b [] = 0
count b (x ∷ xs) = let rest = count b xs in if x == b then suc rest else rest

-- A pool and the blocks that its users hold.
pub record Use : Type 0 where
  pub heap : Heap
  pub held : List ℕ

-- What users do: they create the pool, ask it for blocks, and give back what they hold.
pub data Reachable (grants : ℕ → Bool) : Use → Type 0 where
  created :
      (elm_len max_len : ℕ)
      → Reachable grants (record { heap = create_mem_pool grants elm_len max_len 0; held = [] })
  got :
      {u : Use} {b : ℕ} {h : Heap}
      → Reachable grants u
      → alloc_mem grants u.heap ≡ returns (some b) h
      → Reachable grants (record { heap = h; held = b ∷ u.held })
  got_null :
      {u : Use} {h : Heap}
      → Reachable grants u
      → alloc_mem grants u.heap ≡ returns none h
      → Reachable grants (record { heap = h; held = u.held })
  freed :
      {u : Use} (before : List ℕ) (b : ℕ) (after : List ℕ)
      → Reachable grants u
      → u.held ≡ before ++ b ∷ after
      → Reachable grants (record { heap = free_mem u.heap (some b); held = before ++ after })

-- How often a block should be there: once, if malloc made it.
abbrev pub made : (ℕ → Bool) → ℕ → ℕ → ℕ
made grants requests b = if ltb b requests then (if grants b then 1 else 0) else 0

-- `num` counts the free blocks, and every block that was made is free or held, once.
abbrev pub IsSound : (ℕ → Bool) → Use → Type 0
IsSound grants u =
    (u.heap.pool.num ≡ length u.heap.pool.head)
    × ((b : ℕ) → count b u.heap.pool.head + count b u.held ≡ made grants u.heap.requests b)

eq-of : (a b : ℕ) → (a == b) ≡ true → a ≡ b
eq-of a b h = ground arith

made-suc-granted :
    (grants : ℕ → Bool) (requests b : ℕ)
    → grants requests ≡ true
    → made grants (suc requests) b
      ≡ (if requests == b then suc (made grants requests b) else made grants requests b)
made-suc-granted grants requests b h = elim (Bool-cases (requests == b)) [
  | inl e ↦
      subst
        (λ x.
          made grants (suc requests) x
          ≡ (if requests == x then suc (made grants requests x) else made grants requests x))
        (eq-of requests b e) (ground (arith, h))
  | inr e ↦ ground (arith, e)
]

made-suc-refused :
    (grants : ℕ → Bool) (requests b : ℕ)
    → grants requests ≡ false
    → made grants (suc requests) b ≡ made grants requests b
made-suc-refused grants requests b h = elim (Bool-cases (requests == b)) [
  | inl e ↦
      subst (λ x. made grants (suc requests) x ≡ made grants requests x) (eq-of requests b e)
        (ground (arith, h))
  | inr e ↦ ground (arith, e)
]

count-insert :
    (b x : ℕ) (before after : List ℕ)
    → count b (before ++ x ∷ after)
      ≡ (if x == b then suc (count b (before ++ after)) else count b (before ++ after))
unfolding count
count-insert b x [] after = refl
count-insert b x (y ∷ before) after = ground (arith, count-insert b x before after)

push-IsSound :
    (grants : ℕ → Bool) (h : Heap) (held : List ℕ)
    → grants h.requests ≡ true
    → IsSound grants (record { heap = h; held = held })
    → IsSound grants (record {
      heap = record { pool = push h.pool h.requests; requests = suc h.requests };
      held = held;
    })
unfolding push count
push-IsSound grants h held granted (num, sound) =
    (ap suc num, λ b. ground (arith, sound b, made-suc-granted grants h.requests b granted))

refuse-IsSound :
    (grants : ℕ → Bool) (h : Heap) (held : List ℕ)
    → grants h.requests ≡ false
    → IsSound grants (record { heap = h; held = held })
    → IsSound grants
        (record { heap = record { pool = h.pool; requests = suc h.requests }; held = held })
refuse-IsSound grants h held refused (num, sound) =
    (num, λ b. sound b ∙ sym (made-suc-refused grants h.requests b refused))

alloc_blocks-IsSound :
    (grants : ℕ → Bool) (max : ℕ) (h : Heap) (held : List ℕ)
    → IsSound grants (record { heap = h; held = held })
    → IsSound grants (record { heap = alloc_blocks grants max h; held = held })
unfolding alloc_blocks
alloc_blocks-IsSound grants zero h held sound = sound
alloc_blocks-IsSound grants (suc max) h held sound = elim (Bool-cases (grants h.requests)) [
  | inl granted ↦ rw granted (
      alloc_blocks-IsSound grants max
        (record { pool = push h.pool h.requests; requests = suc h.requests }) held
        (push-IsSound grants h held granted sound))
  | inr refused ↦ rw refused (refuse-IsSound grants h held refused sound)
]

-- Where `num` counts the free blocks, there is none, or the first one is taken.
take-cases :
    (p : ObjPool) (free : List ℕ)
    → p.num ≡ length free
    → ((if ltb 0 p.num then take_head p free else null) ≡ null)
      ⊎ ((b : ℕ) × (next : List ℕ) × (free ≡ b ∷ next)
          × ((if ltb 0 p.num then take_head p free else null)
              ≡ block b (record { head = next; size = p.size; num = p.num - 1 })))
unfolding take_head
take-cases p [] num = inl (ground (arith, num))
take-cases p (b ∷ next) num =
    let some_left : ltb 0 p.num ≡ true = ground (arith, num) in
    inr (b, next, refl, rw some_left refl)

taken-IsSound :
    (grants : ℕ → Bool) (h : Heap) (held : List ℕ) (b : ℕ) (next : List ℕ)
    → h.pool.head ≡ b ∷ next
    → IsSound grants (record { heap = h; held = held })
    → IsSound grants (record {
      heap = record {
        pool = record { head = next; size = h.pool.size; num = h.pool.num - 1 };
        requests = h.requests;
      };
      held = b ∷ held;
    })
unfolding count
taken-IsSound grants h held b next e (num, sound) = (
  omega (arith, num ∙ ap length e),
  λ x. ground (arith, ap (λ l. count x l + count x held) e, sound x),
)

-- What alloc_mem does to a sound pool.
abbrev pub Good : (ℕ → Bool) → List ℕ → Allocated → Type 0
Good grants held (returns (some b) h) = IsSound grants (record { heap = h; held = b ∷ held })
Good grants held (returns none h) = IsSound grants (record { heap = h; held = held })
Good grants held crashes = ⊥

allocated-Good :
    (grants : ℕ → Bool) (h : Heap) (held : List ℕ)
    → IsSound grants (record { heap = h; held = held })
    → Good grants held (allocated h (obj_alloc_from_pool h.pool))
unfolding obj_alloc_from_pool allocated
allocated-Good grants h held sound = elim (take-cases h.pool h.pool.head sound.0) [
  | inl none_left ↦ rw none_left sound
  | inr (b, next, e, taken) ↦ rw taken (taken-IsSound grants h held b next e sound)
]

more-Good :
    (grants : ℕ → Bool) (h : Heap) (held : List ℕ)
    → IsSound grants (record { heap = h; held = held })
    → Good grants held (alloc_more h)
unfolding alloc_more
more-Good grants h held sound = elim (Bool-cases (ltb 0 h.pool.num)) [
  | inl some_left ↦ rw some_left (allocated-Good grants h held sound)
  | inr none_left ↦ rw none_left sound
]

alloc_mem-Good :
    (grants : ℕ → Bool) (h : Heap) (held : List ℕ)
    → IsSound grants (record { heap = h; held = held })
    → Good grants held (alloc_mem grants h)
unfolding alloc_mem alloc_or_more obj_alloc_from_pool
alloc_mem-Good grants h held sound = elim (take-cases h.pool h.pool.head sound.0) [
  | inl none_left ↦ rw none_left (
      more-Good grants (alloc_blocks grants mem_pool_realloc_len h) held
        (alloc_blocks-IsSound grants mem_pool_realloc_len h held sound))
  | inr (b, next, e, taken) ↦ rw taken (taken-IsSound grants h held b next e sound)
]

free_mem-IsSound :
    (grants : ℕ → Bool) (h : Heap) (before : List ℕ) (b : ℕ) (after : List ℕ)
    → IsSound grants (record { heap = h; held = before ++ b ∷ after })
    → IsSound grants (record { heap = free_mem h (some b); held = before ++ after })
unfolding free_mem push count
free_mem-IsSound grants h before b after (num, sound) =
    (ap suc num, λ x. ground (arith, sound x, count-insert x b before after))

-- However a pool is created and its users ask for blocks and give back, in any order, what they
-- hold, and whatever malloc answers: `num` counts the free blocks, and every block that malloc made
-- is once among the free and the held ones, and no other is.
pub Reachable-IsSound : (grants : ℕ → Bool) (u : Use) → Reachable grants u → IsSound grants u
unfolding create_mem_pool count
Reachable-IsSound grants u (created elm_len max_len) =
    alloc_blocks-IsSound grants max_len
      (record { pool = record { head = []; size = elm_len; num = 0 }; requests = 0 }) []
      (refl, λ b. ground arith)
Reachable-IsSound grants u (got {u = before} {b} {h} r e) =
    subst (Good grants before.held) e
      (alloc_mem-Good grants before.heap before.held (Reachable-IsSound grants before r))
Reachable-IsSound grants u (got_null {u = before} {h} r e) =
    subst (Good grants before.held) e
      (alloc_mem-Good grants before.heap before.held (Reachable-IsSound grants before r))
Reachable-IsSound grants u (freed {u = w} before b after r e) =
    free_mem-IsSound grants w.heap before b after (
      subst (λ held. IsSound grants (record { heap = w.heap; held = held })) e
        (Reachable-IsSound grants w r))

-- alloc_mem never follows a null pointer in a pool that is used so.
pub alloc_mem-no_crash :
    (grants : ℕ → Bool) (u : Use) → Reachable grants u → alloc_mem grants u.heap ≢ crashes
alloc_mem-no_crash grants u r e =
    subst (Good grants u.held) e
      (alloc_mem-Good grants u.heap u.held (Reachable-IsSound grants u r))
