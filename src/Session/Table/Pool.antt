-- ===== src/Session/Table/Pool.antt =====
-- The cells of smtp_info_pool: what a connection takes and gives back.
use mathlib.Core.Path.{fun_ext}
use smtp_nel_filter.Prelude.{
  ℕ, zero, suc, ◌+◌, ◌-◌, ◌≤◌, ◌%◌, ◌==◌, ltb, Bool, true, false, ◌≡◌, refl, sym, ◌∙◌, ap, arith,
  Option, none, some, List, [], ◌∷◌, Bytes, if◌then◌else◌, length, take, drop,
}
use smtp_nel_filter.Prelude.Slices.{drop-drop, length-take}
use smtp_nel_filter.Platform.{Platform}
use smtp_nel_filter.Session.Buffer.Bounded.{Event, run, queue_run, Refines, run-Refines}
use smtp_nel_filter.Session.Table.{
  TcpStream, SmtpInfo, Table, set_chain, fresh_info, link_info, malloc_bytes, fill_cell, take_cell,
  zeros, new_smtp_info, unlink, free_smtp_info, smtp_close_connection,
}

-- Setting a chain and then putting back what was there.
set_chain-restore :
    (i : ℕ) (chain : List SmtpInfo) (chains : ℕ → List SmtpInfo)
    → set_chain i (chains i) (set_chain i chain chains) ≡ chains
set_chain-restore i chain chains = fun_ext (λ j. at j (j == i) refl)
  where
    at :
        (j : ℕ) (same : Bool)
        → (j == i) ≡ same
        → (if same then chains i else (if same then chain else chains j)) ≡ chains j
    at j true e = let here : j ≡ i = ground arith in ap chains (sym here)
    at j false e = refl

unlink-front : (info : SmtpInfo) (chain : List SmtpInfo) → unlink info.cell (info ∷ chain) ≡ chain
unfolding unlink
unlink-front info chain = ground arith

pub set_chain-at :
    (i : ℕ) (chain : List SmtpInfo) (chains : ℕ → List SmtpInfo)
    → set_chain i chain chains i ≡ chain
set_chain-at i chain chains = ground arith

pub free-link :
    (t : Table) (info : SmtpInfo) (free : List ℕ)
    → free_smtp_info (link_info t info free) info ≡ record t { free_smtps = info.cell ∷ free }
unfolding free_smtp_info
free-link t info free =
    let i = info.hash_index in
    let num : t.smtp_num + 1 - 1 ≡ t.smtp_num = omega arith in
    rw (
      num,
      set_chain-at i (info ∷ t.smtp_info_table i) t.smtp_info_table,
      unlink-front info (t.smtp_info_table i),
      set_chain-restore i (info ∷ t.smtp_info_table i) t.smtp_info_table,
    )

-- What a connection that was just made is, and what became of the table.
pub record Made (memory : Bytes) (t : Table) (a : TcpStream) (info : SmtpInfo) (t' : Table)
    : Type 0 where
  pub free : List ℕ
  pub free_cells : t.free_smtps ≡ info.cell ∷ free
  pub made :
      info ≡ fresh_info a (a.hash_index % t.smtp_tbl_size) info.cell (take 2049 memory) (zeros 2049)
  pub linked : t' ≡ link_info t info free

take_cell-Made :
    (platform : Platform) (memory : Bytes) (t : Table) (a : TcpStream) (free : List ℕ)
    {info : SmtpInfo} {t' : Table}
    → t.free_smtps ≡ free
    → take_cell platform memory t a free ≡ (some info, t')
    → Made memory t a info t'
unfolding take_cell fill_cell malloc_bytes
take_cell-Made platform memory t a [] cells e = absurd (ground arith)
take_cell-Made platform memory t a (cell ∷ free) {info} {t'} cells e =
    let made : info
        ≡ fresh_info a (a.hash_index % t.smtp_tbl_size) cell (take 2049 memory) (zeros 2049) =
      ground (arith, e) in
    let linked : t' ≡ link_info t info free = ground (arith, e) in
    let same_cell : info.cell ≡ cell = ap (λ x. x.cell) made in
    record {
      free = free;
      free_cells = rw same_cell cells;
      made =
          made
          ∙ ap
              (λ c. fresh_info a (a.hash_index % t.smtp_tbl_size) c (take 2049 memory) (zeros 2049))
              (sym same_cell);
      linked = linked;
    }

pub new-Made :
    (platform : Platform) (memory : Bytes) (t : Table) (a : TcpStream) {info : SmtpInfo}
    {t' : Table}
    → new_smtp_info platform memory t a ≡ (some info, t')
    → Made memory t a info t'
unfolding new_smtp_info
new-Made platform memory t a e = guarded (ltb t.max_smtps t.smtp_num) e
  where
    guarded :
        (full : Bool) {info : SmtpInfo} {t' : Table}
        → (if full then (none, t) else take_cell platform memory t a t.free_smtps) ≡ (some info, t')
        → Made memory t a info t'
    guarded true e = absurd (ground arith)
    guarded false e = take_cell-Made platform memory t a t.free_smtps refl e

-- Closing a connection that was just made leaves the table as it was before.
pub close-new :
    (platform : Platform) (memory : Bytes) (t : Table) (a : TcpStream) {info : SmtpInfo}
    {t' : Table}
    → new_smtp_info platform memory t a ≡ (some info, t')
    → smtp_close_connection t' (some info) ≡ t
unfolding smtp_close_connection free_smtp_info
close-new platform memory t a {info} {t'} e =
    let new = new-Made platform memory t a e in
    ap (λ x. smtp_close_connection x (some info)) new.linked
    ∙ free-link t info new.free
    ∙ ap (λ free. record t { free_smtps = free }) (sym new.free_cells)

drop-length : (xs : List ℕ) → drop (length xs) xs ≡ []
drop-length [] = refl
drop-length (x ∷ xs) = drop-length xs

pub length-zeros : (n : ℕ) → length (zeros n) ≡ n
unfolding zeros
length-zeros zero = refl
length-zeros (suc n) = ap suc (length-zeros n)

empty-Refines :
    (capacity : ℕ) (memory : Bytes)
    → length memory ≡ capacity + 1
    → Refines capacity [] (record { buf = memory; start = 0; data_len = 0 })
empty-Refines capacity memory size = record {
  holds = record {
    valid = record { fits = omega (arith, size) };
    same_size = size;
    bytes_pending = refl;
  };
  at_front = refl;
}

-- As many attempts to make a connection.
abbrev pub attempts : Platform → Bytes → TcpStream → ℕ → Table → Table
attempts platform memory a zero t = t
attempts platform memory a (suc n) t =
    attempts platform memory a n (new_smtp_info platform memory t a).1

new-failed :
    (platform : Platform) (memory : Bytes) (t : Table) (a : TcpStream)
    → platform.malloc 2049 ≡ false
    → t.smtp_num ≤ t.max_smtps
    → (new_smtp_info platform memory t a).1 ≡ record t { free_smtps = drop 1 t.free_smtps }
unfolding new_smtp_info take_cell fill_cell malloc_bytes
new-failed platform memory t a no_memory room =
    let not_full : ltb t.max_smtps t.smtp_num ≡ false = ground arith in
    rw not_full (no_cell t.free_smtps refl)
  where
    no_cell :
        (free : List ℕ)
        → t.free_smtps ≡ free
        → (take_cell platform memory t a free).1 ≡ record t { free_smtps = drop 1 free }
    no_cell [] e = ap (λ f. record t { free_smtps = f }) e
    no_cell (cell ∷ free) e = rw no_memory

attempts-failed :
    (platform : Platform) (memory : Bytes) (a : TcpStream) (n : ℕ) (t : Table)
    → platform.malloc 2049 ≡ false
    → t.smtp_num ≤ t.max_smtps
    → attempts platform memory a n t ≡ record t { free_smtps = drop n t.free_smtps }
attempts-failed platform memory a zero t no_memory room = refl
attempts-failed platform memory a (suc n) t no_memory room =
    ap (attempts platform memory a n) (new-failed platform memory t a no_memory room)
    ∙ attempts-failed platform memory a n (record t { free_smtps = drop 1 t.free_smtps }) no_memory
        room
    ∙ ap (λ f. record t { free_smtps = f })
        (drop-drop n 1 t.free_smtps ∙ ap (λ k. drop k t.free_smtps) one_more)
  where
    one_more : 1 + n ≡ suc n
    one_more = omega arith

if-same : (b : Bool) (x : Option SmtpInfo × Table) → (if b then x else x) ≡ x
if-same true x = refl
if-same false x = refl

new-no_cells :
    (platform : Platform) (memory : Bytes) (a : TcpStream) (t : Table)
    → new_smtp_info platform memory (record t { free_smtps = [] }) a
      ≡ (none, record t { free_smtps = [] })
unfolding new_smtp_info take_cell fill_cell malloc_bytes
new-no_cells platform memory a t =
    if-same (ltb t.max_smtps t.smtp_num) (none, record t { free_smtps = [] })

-- A cell is lost whenever memory for a buffer is refused: after as many such attempts as there are
-- free cells no connection is made any more, even if memory is granted again. The table is not over
-- its limit; nothing need be in use.
pub new-after_failures :
    (platform later : Platform) (memory : Bytes) (a : TcpStream) (t : Table)
    → platform.malloc 2049 ≡ false
    → t.smtp_num ≤ t.max_smtps
    → new_smtp_info later memory (attempts platform memory a (length t.free_smtps) t) a
      ≡ (none, record t { free_smtps = [] })
new-after_failures platform later memory a t no_memory room =
    rw
      (
        attempts-failed platform memory a (length t.free_smtps) t no_memory room,
        drop-length t.free_smtps,
      )
      (new-no_cells later memory a t)

-- The buffers of a new connection are empty queues of SMTP_BUF_LEN bytes, and whatever is done to the
-- client's, in whatever order, is done to such a queue. What stands in the memory that malloc
-- answered with does not matter; there are SMTP_BUF_LEN + 1 bytes of it at least.
pub new-Refines :
    (platform : Platform) (memory : Bytes) (t : Table) (a : TcpStream) (es : List Event)
    {info : SmtpInfo} {t' : Table}
    → 2049 ≤ length memory
    → new_smtp_info platform memory t a ≡ (some info, t')
    → Refines 2048 (queue_run 2048 [] es) (run info.client es) × Refines 2048 [] info.server
new-Refines platform memory t a es room e =
    let new = new-Made platform memory t a e in
    let size : length (take 2049 memory) ≡ 2049 = length-take 2049 memory room in
    rw new.made (
      run-Refines 2048 [] (record { buf = take 2049 memory; start = 0; data_len = 0 }) es
          (empty-Refines 2048 (take 2049 memory) size),
      empty-Refines 2048 (zeros 2049) (length-zeros 2049),
    )
