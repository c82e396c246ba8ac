-- ===== src/Tests/Connections.antt =====
-- The table of connections on concrete inputs.
use smtp_nel_filter.Prelude.{
  ℕ, Bool, true, false, codes, List, pos, negsuc, take, ltb, ◌≡◌, arith, refl, some, none, [], ◌∷◌,
  Bytes,
}
use smtp_nel_filter.Platform.{Platform, lp64}
use smtp_nel_filter.Session.Buffer.Bounded.{arrived, processed, run, queue_run, Refines}
use smtp_nel_filter.Session.Table.{
  TcpStream, SmtpInfo, Table, cells, smtp_init, fresh_info, link_info, malloc_bytes, fill_cell,
  take_cell, new_smtp_info, from_source, from_dest, search_chain, search_smtp_info,
  smtp_close_connection, zeros,
}
use smtp_nel_filter.Session.Table.Lookup.{search-close_other, search-reversed, reversed}
use smtp_nel_filter.Session.Buffer.{memcpy, receive}
use smtp_nel_filter.Session.Dispatch.{
  Parsers, parse_smtp_client, hold_client, hold, process_found, process_search, process_lookup,
  process_new, is_est, conn_est, conn_data, conn_close, process_smtp, nids_just_est, Packet,
  process_state, process_tcpdata,
}
use smtp_nel_filter.Session.Dispatch.Cells.{used_times}
use smtp_nel_filter.Session.Dispatch.Places.{IsSound, Same-refl, KeepsPlace}
use smtp_nel_filter.Session.Dispatch.Invariant.{Reaches, started, received, Reaches-IsSound}
use smtp_nel_filter.Session.Dispatch.Life.{feed, process_smtp-life}
use smtp_nel_filter.Session.Dispatch.Refusal.{process_smtp-refused}
use smtp_nel_filter.Session.Table.Pool.{attempts, new-after_failures, new-Refines, length-zeros}

-- Two mail clients of one server, in the same chain.
abbrev stream_1 : TcpStream
stream_1 = record {
  addr = record { saddr = 1; source = 1025; daddr = 2; dest = 25 };
  hash_index = 5;
}

abbrev stream_2 : TcpStream
stream_2 = record {
  addr = record { saddr = 3; source = 1026; daddr = 2; dest = 25 };
  hash_index = 9;
}

-- A table of four chains and four cells without a connection.
abbrev vacant : Table
vacant = record {
  smtp_tbl_size = 4;
  max_smtps = 3;
  smtp_num = 0;
  smtp_info_table = λ i. [];
  free_smtps = 0 ∷ 1 ∷ 2 ∷ 3 ∷ [];
}

abbrev memory : Bytes
memory = zeros 2049

abbrev cli_buf : Bytes
cli_buf = take 2049 memory

abbrev info_1 : SmtpInfo
info_1 = fresh_info stream_1 1 0 cli_buf (zeros 2049)

abbrev info_2 : SmtpInfo
info_2 = fresh_info stream_2 1 1 cli_buf (zeros 2049)

abbrev one : Table
one = link_info vacant info_1 (1 ∷ 2 ∷ 3 ∷ [])

abbrev two : Table
two = link_info one info_2 (2 ∷ 3 ∷ [])

new_1 : new_smtp_info lp64 memory vacant stream_1 ≡ (some info_1, one)
unfolding new_smtp_info take_cell fill_cell malloc_bytes
new_1 = refl

new_2 : new_smtp_info lp64 memory one stream_2 ≡ (some info_2, two)
unfolding new_smtp_info take_cell fill_cell malloc_bytes
new_2 = refl

found_1 : search_smtp_info two stream_1 ≡ some info_1
unfolding search_smtp_info search_chain from_source from_dest
found_1 = refl

search-close_other_example :
    search_smtp_info (smtp_close_connection two (some info_2)) stream_1 ≡ some info_1
search-close_other_example = search-close_other two stream_1 info_2 found_1 (λ e. omega (arith, e))

search-reversed_example :
    search_chain (record { addr = reversed stream_1.addr; hash_index = 5 }) (info_1 ∷ []) ≡ none
search-reversed_example =
    search-reversed stream_1 5 1 0 cli_buf (zeros 2049) (λ e. omega (arith, e))

abbrev no_memory : Platform
no_memory = record { sizeof_ptr = 8; malloc = λ n. ltb n 2049 }

new-after_failures_example :
    new_smtp_info lp64 memory (attempts no_memory memory stream_1 4 vacant) stream_1
    ≡ (none, record vacant { free_smtps = [] })
new-after_failures_example =
    new-after_failures no_memory lp64 memory stream_1 vacant refl (omega arith)

new-Refines_example :
    Refines 2048 (codes "T") (run info_1.client (arrived (codes "QUIT") ∷ processed 3 ∷ []))
    × Refines 2048 [] info_1.server
unfolding queue_run
new-Refines_example =
    new-Refines lp64 memory vacant stream_1 (arrived (codes "QUIT") ∷ processed 3 ∷ [])
      (omega (arith, length-zeros 2049)) new_1

-- Parsers that refuse every command and accept the rest.
abbrev strict : Parsers
strict = record {
  parse_smtp_command = λ info. (negsuc 10, info);
  parse_smtp_message = λ info. (pos 0, info);
  parse_smtp_ack = λ info. (pos 1, info);
}

strict-KeepsPlace : KeepsPlace strict
strict-KeepsPlace = record {
  command_keeps = Same-refl;
  message_keeps = Same-refl;
  ack_keeps = Same-refl;
}

-- A table of four chains, and the first packet of a stream.
abbrev first_packet : Packet
first_packet = record {
  nids_state = nids_just_est;
  stream = stream_1;
  client_new = [];
  server_new = [];
}

init_run : smtp_init lp64 1000 4 ≡ some vacant
unfolding smtp_init cells
init_run = refl

first_run : process_tcpdata lp64 memory strict vacant first_packet ≡ some one
unfolding process_tcpdata process_state process_smtp process_new process_lookup process_search
    process_found is_est new_smtp_info take_cell fill_cell malloc_bytes search_smtp_info
    search_chain from_source from_dest
first_run = refl

one-Reaches : Reaches (λ n. strict) 1 one
one-Reaches = received lp64 memory first_packet (started lp64 1000 4 init_run) first_run

one-IsSound : IsSound one.free_smtps one.smtp_info_table
one-IsSound = Reaches-IsSound (λ n. strict) (λ n. strict-KeepsPlace) one-Reaches

Reaches-IsSound_example : IsSound one.free_smtps one.smtp_info_table
Reaches-IsSound_example = Reaches-IsSound (λ n. strict) (λ n. strict-KeepsPlace) one-Reaches

-- An answer of the server, and a command.
abbrev pieces : List (Bytes × Bool)
pieces = (codes "220 x", true) ∷ (codes "HELO y", false) ∷ []

absent_2 : search_smtp_info one stream_2 ≡ none
unfolding search_smtp_info search_chain from_source from_dest
absent_2 = refl

process_smtp-life_example :
    (process_smtp lp64 memory strict
      (feed strict lp64 memory stream_2 pieces
        (process_smtp lp64 memory strict one stream_2 [] false conn_est).1)
      stream_2
      []
      false
      conn_close).1
    ≡ one
process_smtp-life_example =
    process_smtp-life strict lp64 memory one stream_2 pieces strict-KeepsPlace absent_2 new_2

found_one : search_smtp_info one stream_1 ≡ some info_1
unfolding search_smtp_info search_chain from_source from_dest
found_one = refl

-- "QUIT" in the buffer of the client.
abbrev quitting : SmtpInfo
quitting = record info_1 {
  client = record info_1.client {
    buf = memcpy (memcpy cli_buf 0 (codes "QUIT")) 4 (0 ∷ []);
    data_len = 4;
  };
}

quit_fits : hold info_1 false (codes "QUIT") ≡ some quitting
unfolding hold hold_client receive zeros
quit_fits = refl

quit_refused : parse_smtp_client strict quitting ≡ (negsuc 10, quitting)
unfolding parse_smtp_client
quit_refused = refl

process_smtp-refused_example :
    let after = process_smtp lp64 memory strict one stream_1 (codes "QUIT") false conn_data in
    (after.0 ≡ negsuc 10)
    × (after.1.free_smtps ≡ 0 ∷ 1 ∷ 2 ∷ 3 ∷ [])
    × ((i : ℕ) → used_times 0 (after.1.smtp_info_table i) ≡ 0)
process_smtp-refused_example =
    process_smtp-refused strict lp64 memory one stream_1 b'Q' (codes "UIT") 10 strict-KeepsPlace
      one-IsSound found_one quit_fits quit_refused
