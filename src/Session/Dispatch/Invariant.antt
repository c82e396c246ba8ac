-- ===== src/Session/Dispatch/Invariant.antt =====
-- Every cell is free or linked into one chain, at most once, whatever events come.
use mathlib.Core.Path.{subst}
use smtp_nel_filter.Prelude.{
  suc, ℕ, ◌+◌, ◌*◌, ◌/◌, ◌≡◌, refl, arith, Bool, true, false, not, ◌||◌, Option, none, some, [],
  Bytes, ◌==◌, length, ℤ, pos, negsuc, Bool-cases, inl, inr,
}
use smtp_nel_filter.Platform.{Platform}
use smtp_nel_filter.Session.Table.{
  TcpStream, SmtpInfo, Table, smtp_init, new_smtp_info, search_smtp_info,
}
use smtp_nel_filter.Session.Dispatch.{
  Parsers, parse_smtp_client, parse_smtp_server, write_back, hold, after_parse, parse_held,
  ConnType, process_found, process_search, process_lookup, process_new, is_est, process_smtp,
  conn_null, conn_est, conn_data, conn_asst, conn_close, conn_loss, conn_dup, conn_error, conn_max,
  conn_tmo, NidsState, nids_just_est, nids_close, nids_reset, nids_data, nids_other, Packet,
  process_new_data, process_state, process_tcpdata,
}
use smtp_nel_filter.Session.Dispatch.Places.{
  IsSound, IsTable, Same, Same-refl, hold-Same, KeepsPlace, IfAny, Linked, new-IsTable,
  close-IsTable, write_back-IsTable, write_back-Linked, search-Linked,
}
use smtp_nel_filter.Session.Dispatch.Cells.{used_times, free_times-cells}

after_parse-IsTable :
    (t : Table) (r : ℤ × SmtpInfo) → IsTable t → Linked t r.1 → IsTable (after_parse t r).1
unfolding after_parse
after_parse-IsTable t (pos n, info) s l = write_back-IsTable t info s
after_parse-IsTable t (negsuc n, info) s l =
    close-IsTable (write_back t info) info (write_back-IsTable t info s)
      (write_back-Linked t info l)

pub moved-Linked :
    (t : Table) (info other : SmtpInfo) → Linked t info → Same info other → Linked t other
moved-Linked t info other l same = record { linked = rw (same.same_cell, same.same_index) l.linked }

module _ (p : Parsers) (keeps : KeepsPlace p) where
  pub client-Same : (info : SmtpInfo) → Same info (parse_smtp_client p info).1
  unfolding parse_smtp_client
  client-Same info = elim (Bool-cases (info.curr_parse_state == 0 || info.curr_parse_state == 1)) [
    | inl command ↦ rw command (keeps.command_keeps info)
    | inr other ↦ elim (Bool-cases (info.curr_parse_state == 4)) [
      | inl message ↦ rw (other, message) (keeps.message_keeps info)
      | inr none_of_them ↦ rw (other, none_of_them) (Same-refl info)
    ]
  ]

  parse_held-IsTable :
      (t : Table) (to_client : Bool) (held : Option SmtpInfo)
      → IsTable t
      → ((info : SmtpInfo) → held ≡ some info → Linked t info)
      → IsTable (parse_held p t to_client held).1
  unfolding parse_held parse_smtp_server
  parse_held-IsTable t to_client none s l = s
  parse_held-IsTable t true (some info) s l =
      after_parse-IsTable t (p.parse_smtp_ack info) s
        (moved-Linked t info (p.parse_smtp_ack info).1 (l info refl) (keeps.ack_keeps info))
  parse_held-IsTable t false (some info) s l =
      after_parse-IsTable t (parse_smtp_client p info) s
        (moved-Linked t info (parse_smtp_client p info).1 (l info refl) (client-Same info))

  process_found-IsTable :
      (t : Table) (info : SmtpInfo) (received : Bytes) (to_client : Bool) (c : ConnType)
      → IsTable t
      → Linked t info
      → IsTable (process_found p t info received to_client c).1
  unfolding process_found
  process_found-IsTable t info received to_client conn_data s l =
      elim (Bool-cases (length received == 0)) [
        | inl e ↦ rw e s
        | inr e ↦ rw e (
            parse_held-IsTable t to_client (hold info to_client received) s
              (λ held h. moved-Linked t info held l (hold-Same info held to_client received h)))
      ]
  process_found-IsTable t info received to_client conn_close s l = close-IsTable t info s l
  process_found-IsTable t info received to_client conn_est s l = s
  process_found-IsTable t info received to_client conn_null s l = s
  process_found-IsTable t info received to_client conn_asst s l = s
  process_found-IsTable t info received to_client conn_loss s l = s
  process_found-IsTable t info received to_client conn_dup s l = s
  process_found-IsTable t info received to_client conn_error s l = s
  process_found-IsTable t info received to_client conn_max s l = s
  process_found-IsTable t info received to_client conn_tmo s l = s

  process_lookup-IsTable :
      (t : Table) (a : TcpStream) (received : Bytes) (to_client : Bool) (c : ConnType)
      → IsTable t
      → IsTable (process_lookup p t a received to_client c).1
  unfolding process_lookup process_search
  process_lookup-IsTable t a received to_client c s = found (search_smtp_info t a) refl
    where
      found :
          (o : Option SmtpInfo)
          → search_smtp_info t a ≡ o
          → IsTable (process_search p t received to_client c o).1
      found none e = s
      found (some info) e =
          process_found-IsTable t info received to_client c s (search-Linked t a s e)

  process_new-IsTable :
      (a : TcpStream) (received : Bytes) (to_client : Bool) (r : Option SmtpInfo × Table)
      → IsTable r.1
      → IsTable (process_new p a received to_client r).1
  unfolding process_new
  process_new-IsTable a received to_client (none, t) s = s
  process_new-IsTable a received to_client (some info, t) s =
      process_lookup-IsTable t a received to_client conn_est s

  pub process_smtp-IsTable :
      (platform : Platform) (memory : Bytes) (t : Table) (a : TcpStream) (received : Bytes)
      (to_client : Bool) (c : ConnType)
      → IsTable t
      → IsTable (process_smtp platform memory p t a received to_client c).1
  unfolding process_smtp
  process_smtp-IsTable platform memory t a received to_client c s = elim (Bool-cases (is_est c)) [
    | inl est ↦ rw est (
        process_new-IsTable a received to_client (new_smtp_info platform memory t a)
          (new-IsTable platform memory t a s))
    | inr other ↦ rw other (process_lookup-IsTable t a received to_client c s)
  ]

  new_data-IsTable :
      (platform : Platform) (memory : Bytes) (t : Table) (packet : Packet)
      → IsTable t
      → IfAny IsTable (process_new_data platform memory p t packet)
  unfolding process_new_data
  new_data-IsTable platform memory t packet s = elim (Bool-cases (length packet.server_new == 0)) [
    | inl e ↦ elim (Bool-cases (length packet.client_new == 0)) [
      | inl f ↦ rw (e, f) tt
      | inr f ↦
          rw (e, f)
            (process_smtp-IsTable platform memory t packet.stream packet.client_new true conn_data
              s)
    ]
    | inr e ↦
        rw e
          (process_smtp-IsTable platform memory t packet.stream packet.server_new false conn_data s)
  ]

  state-IsTable :
      (platform : Platform) (memory : Bytes) (t : Table) (packet : Packet) (n : NidsState)
      → IsTable t
      → IfAny IsTable (process_state platform memory p t packet n)
  unfolding process_state
  state-IsTable platform memory t packet nids_just_est s =
      elim (Bool-cases (packet.stream.addr.dest == 25)) [
        | inl e ↦ rw e (process_smtp-IsTable platform memory t packet.stream [] false conn_est s)
        | inr e ↦ rw e s
      ]
  state-IsTable platform memory t packet nids_close s =
      process_smtp-IsTable platform memory t packet.stream [] false conn_close s
  state-IsTable platform memory t packet nids_reset s =
      process_smtp-IsTable platform memory t packet.stream [] false conn_close s
  state-IsTable platform memory t packet nids_data s = new_data-IsTable platform memory t packet s
  state-IsTable platform memory t packet nids_other s = s

process_tcpdata-IsTable :
    (p : Parsers)
    → KeepsPlace p
    → (platform : Platform) (memory : Bytes) (t : Table) (packet : Packet) → IsTable t
    → IfAny IsTable (process_tcpdata platform memory p t packet)
unfolding process_tcpdata
process_tcpdata-IsTable p keeps platform memory t packet =
    state-IsTable p keeps platform memory t packet packet.nids_state

init-IsTable :
    (platform : Platform) (sizeof_info smtp_tbl_size : ℕ)
    → IfAny IsTable (smtp_init platform sizeof_info smtp_tbl_size)
unfolding smtp_init used_times
init-IsTable platform sizeof_info smtp_tbl_size =
    elim (Bool-cases (not (platform.malloc (smtp_tbl_size * platform.sizeof_ptr)))) [
      | inl e ↦ rw e tt
      | inr e ↦
          elim (Bool-cases (not (platform.malloc ((3 * smtp_tbl_size / 4 + 1) * sizeof_info)))) [
            | inl f ↦ rw (e, f) tt
            | inr f ↦
                rw (e, f)
                  (record {
                    placed = λ i. tt;
                    once = λ c i. omega (arith, free_times-cells c 0 (3 * smtp_tbl_size / 4 + 1));
                    apart = λ c i j h k. absurd (omega arith);
                  })
          ]
    ]

-- The tables that the program gets from smtp_init by so many packets of libnids, whatever they hold and
-- whatever malloc answers each time. The parsers may answer otherwise at each packet, by what they
-- keep for themselves.
pub data Reaches (p : ℕ → Parsers) : ℕ → Table → Type 0 where
  started :
      {t : Table} (platform : Platform) (sizeof_info smtp_tbl_size : ℕ)
      → smtp_init platform sizeof_info smtp_tbl_size ≡ some t
      → Reaches p 0 t
  received :
      {n : ℕ} {t t' : Table} (platform : Platform) (memory : Bytes) (packet : Packet)
      → Reaches p n t
      → process_tcpdata platform memory (p n) t packet ≡ some t'
      → Reaches p (suc n) t'

-- Whatever packets come: a cell of the pool is free or linked into one chain of the hash table, at
-- most once, and a connection is in the chain that its hash index names, if the parsers change
-- neither the place nor the addresses of a connection at any packet.
pub Reaches-IsSound :
    (p : ℕ → Parsers)
    → ((n : ℕ) → KeepsPlace (p n))
    → {n : ℕ} {t : Table} → Reaches p n t
    → IsSound t.free_smtps t.smtp_info_table
Reaches-IsSound p keeps (started platform sizeof_info smtp_tbl_size e) =
    subst (IfAny IsTable) e (init-IsTable platform sizeof_info smtp_tbl_size)
Reaches-IsSound p keeps (received {n} {t} platform memory packet r e) =
    subst (IfAny IsTable) e
      (process_tcpdata-IsTable (p n) (keeps n) platform memory t packet (Reaches-IsSound p keeps r))
