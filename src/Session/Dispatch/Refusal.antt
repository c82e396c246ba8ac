-- ===== src/Session/Dispatch/Refusal.antt =====
-- A connection whose client is refused by the parsers.
use mathlib.Core.Path.{subst}
use smtp_nel_filter.Prelude.{
  ◌∙◌, ℕ, ◌≡◌, refl, sym, arith, false, some, List, ◌∷◌, Bytes, ◌==◌, length, negsuc,
}
use smtp_nel_filter.Platform.{Platform}
use smtp_nel_filter.Session.Table.{
  TcpStream, SmtpInfo, Table, search_smtp_info, free_smtp_info, smtp_close_connection,
}
use smtp_nel_filter.Session.Dispatch.{
  Parsers, parse_smtp_client, write_back, hold, after_parse, parse_held, conn_data, process_found,
  process_search, process_lookup, is_est, process_smtp,
}
use smtp_nel_filter.Session.Dispatch.Cells.{free_times, used_times}
use smtp_nel_filter.Session.Dispatch.Places.{
  IsSound, IsTable, Same, hold-Same, KeepsPlace, Linked, close-IsTable, write_back-IsTable,
  write_back-Linked, search-Linked,
}
use smtp_nel_filter.Session.Dispatch.Invariant.{client-Same, moved-Linked}

-- The cell in front of the free ones is in no chain.
front-unused :
    (cell : ℕ) (free : List ℕ) (chains : ℕ → List SmtpInfo)
    → IsSound (cell ∷ free) chains
    → (i : ℕ) → used_times cell (chains i) ≡ 0
unfolding free_times
front-unused cell free chains s i = ground (arith, s.once cell i)

closed-unused :
    (t : Table) (info : SmtpInfo)
    → IsTable t
    → Linked t info
    → (i : ℕ) → used_times info.cell ((smtp_close_connection t (some info)).smtp_info_table i) ≡ 0
unfolding smtp_close_connection free_smtp_info
closed-unused t info s l = front-unused info.cell t.free_smtps _ (close-IsTable t info s l)

refused :
    (t : Table) (info : SmtpInfo) (n : ℕ)
    → IsTable t
    → Linked t info
    → let after = after_parse t (negsuc n, info) in
      (after.0 ≡ negsuc n)
      × (after.1.free_smtps ≡ info.cell ∷ t.free_smtps)
      × ((i : ℕ) → used_times info.cell (after.1.smtp_info_table i) ≡ 0)
unfolding after_parse
refused t info n s l = (
  refl,
  (unfold smtp_close_connection free_smtp_info write_back in refl),
  closed-unused (write_back t info) info (write_back-IsTable t info s) (write_back-Linked t info l),
)

-- Bytes of a client that fit into the buffer and that the parsers refuse with a negative code close
-- the connection, wherever in its chain it is: the code is returned, its cell is the first free one,
-- and it is in no chain any more. The parsers change neither the place nor the addresses of a
-- connection, and the table is one that events lead to.
pub process_smtp-refused :
    (p : Parsers) (platform : Platform) (memory : Bytes) (t : Table) (a : TcpStream) (c : ℕ)
    (received : Bytes) (n : ℕ) {info held other : SmtpInfo}
    → KeepsPlace p
    → IsSound t.free_smtps t.smtp_info_table
    → search_smtp_info t a ≡ some info
    → hold info false (c ∷ received) ≡ some held
    → parse_smtp_client p held ≡ (negsuc n, other)
    → let after = process_smtp platform memory p t a (c ∷ received) false conn_data in
      (after.0 ≡ negsuc n)
      × (after.1.free_smtps ≡ info.cell ∷ t.free_smtps)
      × ((i : ℕ) → used_times info.cell (after.1.smtp_info_table i) ≡ 0)
unfolding process_smtp process_lookup process_search process_found parse_held is_est
process_smtp-refused p platform memory t a c received n {info} {held} {other} keeps s found fits e =
    let some_bytes : (length (c ∷ received) == 0) ≡ false = ground arith in
    let held_same = hold-Same info held false (c ∷ received) fits in
    let parsed_same : Same held other = subst (λ r. Same held r.1) e (client-Same p keeps held) in
    let l =
      moved-Linked t held other (moved-Linked t info held (search-Linked t a s found) held_same)
        parsed_same in
    let cell : info.cell ≡ other.cell = sym (parsed_same.same_cell ∙ held_same.same_cell) in
    rw (found, some_bytes, fits, e) (rw cell (refused t other n s l))
