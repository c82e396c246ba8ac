-- ===== src/Session/Table/Lookup.antt =====
-- Which connection search_smtp_info finds.
use smtp_nel_filter.Prelude.{
  take, ltb, ℕ, ◌%◌, ◌==◌, Bool, true, false, ◌≡◌, ◌≢◌, refl, sym, ◌∙◌, ap, arith, none, some, List,
  [], ◌∷◌, Bytes, if◌then◌else◌,
}
use smtp_nel_filter.Platform.{Platform}
use smtp_nel_filter.Session.Table.{
  fill_cell, malloc_bytes, zeros, Addr, TcpStream, SmtpInfo, Table, fresh_info, link_info,
  take_cell, new_smtp_info, from_source, from_dest, search_chain, search_smtp_info, unlink,
  free_smtp_info, smtp_close_connection,
}

==-refl : (a : ℕ) → (a == a) ≡ true
==-refl a = ground arith

-- Every connection answers to the stream that it was made of.
fresh-from_source :
    (a : TcpStream) (i cell : ℕ) (m n : Bytes) → from_source a (fresh_info a i cell m n) ≡ true
unfolding from_source
fresh-from_source a i cell m n = ground arith

search-link :
    (t : Table) (a : TcpStream) (cell : ℕ) (m n : Bytes) (free : List ℕ)
    → search_smtp_info (link_info t (fresh_info a (a.hash_index % t.smtp_tbl_size) cell m n) free) a
      ≡ some (fresh_info a (a.hash_index % t.smtp_tbl_size) cell m n)
unfolding search_smtp_info search_chain
search-link t a cell m n free =
    let i = a.hash_index % t.smtp_tbl_size in rw (==-refl i, fresh-from_source a i cell m n)

search-take_cell :
    (platform : Platform) (memory : Bytes) (t : Table) (a : TcpStream) (free : List ℕ)
    {info : SmtpInfo} {t' : Table}
    → take_cell platform memory t a free ≡ (some info, t')
    → search_smtp_info t' a ≡ some info
unfolding take_cell fill_cell malloc_bytes
search-take_cell platform memory t a [] e = absurd (ground arith)
search-take_cell platform memory t a (cell ∷ free) e =
    let found = search-link t a cell (take 2049 memory) (zeros 2049) free in ground (arith, found)

-- The stream of a connection that was just made finds that connection.
pub search-new :
    (platform : Platform) (memory : Bytes) (t : Table) (a : TcpStream) {info : SmtpInfo}
    {t' : Table}
    → new_smtp_info platform memory t a ≡ (some info, t')
    → search_smtp_info t' a ≡ some info
unfolding new_smtp_info
search-new platform memory t a e = guarded (ltb t.max_smtps t.smtp_num) e
  where
    guarded :
        (full : Bool) {info : SmtpInfo} {t' : Table}
        → (if full then (none, t) else take_cell platform memory t a t.free_smtps) ≡ (some info, t')
        → search_smtp_info t' a ≡ some info
    guarded true e = absurd (ground arith)
    guarded false e = search-take_cell platform memory t a t.free_smtps e

search-unlink :
    (a : TcpStream) (cell : ℕ) (chain : List SmtpInfo) {info : SmtpInfo}
    → search_chain a chain ≡ some info
    → info.cell ≢ cell
    → search_chain a (unlink cell chain) ≡ some info
unfolding search_chain unlink
search-unlink a cell [] e other = absurd (ground arith)
search-unlink a cell (first ∷ chain) {info} e other =
    let rest : search_chain a chain ≡ some info → search_chain a (unlink cell chain) ≡ some info =
      λ f. search-unlink a cell chain f other in
    ground (arith, rest)

-- Closing a connection does not hide another one: what a stream finds before, if it is not the one
-- that is closed, it finds afterwards.
pub search-close_other :
    (t : Table) (a : TcpStream) (closed : SmtpInfo) {info : SmtpInfo}
    → search_smtp_info t a ≡ some info
    → info.cell ≢ closed.cell
    → search_smtp_info (smtp_close_connection t (some closed)) a ≡ some info
unfolding search_smtp_info smtp_close_connection free_smtp_info
search-close_other t a closed {info} e other =
    chain (a.hash_index % t.smtp_tbl_size == closed.hash_index) refl
  where
    chain :
        (same : Bool)
        → (a.hash_index % t.smtp_tbl_size == closed.hash_index) ≡ same
        → search_chain a (
            if same
            then unlink closed.cell (t.smtp_info_table closed.hash_index)
            else t.smtp_info_table (a.hash_index % t.smtp_tbl_size))
          ≡ some info
    chain true h =
        let here : a.hash_index % t.smtp_tbl_size ≡ closed.hash_index = ground arith in
        search-unlink a closed.cell (t.smtp_info_table closed.hash_index)
          (ap (λ i. search_chain a (t.smtp_info_table i)) (sym here) ∙ e) other
    chain false h = e

-- The two ends of a stream exchanged.
abbrev pub reversed : Addr → Addr
reversed a = record { saddr = a.daddr; source = a.dest; daddr = a.saddr; dest = a.source }

-- In a chain that holds nothing but a new connection, the stream in the opposite direction finds
-- none, if the ports differ.
pub search-reversed :
    (a : TcpStream) (h i cell : ℕ) (m n : Bytes)
    → a.addr.source ≢ a.addr.dest
    → search_chain
        (record { addr = reversed a.addr; hash_index = h })
        (fresh_info a i cell m n ∷ [])
      ≡ none
unfolding search_chain from_source from_dest
search-reversed a h i cell m n ports = ground arith
