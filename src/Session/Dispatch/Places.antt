-- ===== src/Session/Dispatch/Places.antt =====
-- Cells that are free or linked into one chain, at most once: what the operations on the table keep.
use mathlib.Core.Path.{subst}
use smtp_nel_filter.Prelude.{
  take, ℕ, ◌+◌, ◌%◌, ◌≤◌, ◌<◌, ◌≡◌, ◌≢◌, refl, sym, arith, Bool, true, false, Option, none, some,
  List, [], ◌∷◌, Bytes, ◌==◌, ltb, ℤ, Bool-cases, inl, inr,
}
use smtp_nel_filter.Platform.{Platform}
use smtp_nel_filter.Session.Buffer.{Buffer, Synced, no_error, error_buffer, receive}
use smtp_nel_filter.Session.Table.{
  fill_cell, malloc_bytes, TcpStream, SmtpInfo, Table, set_chain, fresh_info, zeros, take_cell,
  new_smtp_info, search_smtp_info, unlink, free_smtp_info, smtp_close_connection,
}
use smtp_nel_filter.Session.Dispatch.{Parsers, replace, write_back, hold_server, hold_client, hold}
use smtp_nel_filter.Session.Dispatch.Cells.{
  free_times, used_times, Placed, search_chain-used, search_chain-Placed, used_times-unlink,
  unlink-Placed, used_times-replace, replace-Placed,
}

-- The chains hold their own connections, no cell is free and linked or linked twice in one chain,
-- and none is linked into two.
pub record IsSound (free : List ℕ) (chains : ℕ → List SmtpInfo) : Type 0 where
  pub placed : (i : ℕ) → Placed i (chains i)
  pub once : (c i : ℕ) → free_times c free + used_times c (chains i) ≤ 1
  pub apart : (c i j : ℕ) → 0 < used_times c (chains i) → 0 < used_times c (chains j) → i ≡ j

abbrev pub IsTable : Table → Type 0
IsTable t = IsSound t.free_smtps t.smtp_info_table

-- A chain that holds no more than before.
shrink-IsSound :
    (free free' : List ℕ) (chains : ℕ → List SmtpInfo) (i : ℕ) (chain : List SmtpInfo)
    → IsSound free chains
    → Placed i chain
    → ((c : ℕ) → used_times c chain ≤ used_times c (chains i))
    → ((c : ℕ) → free_times c free' + used_times c chain ≤ 1)
    → ((c j : ℕ) → j ≢ i → free_times c free' + used_times c (chains j) ≤ 1)
    → IsSound free' (set_chain i chain chains)
shrink-IsSound free free' chains i chain s p less here there = record {
  placed = λ j. elim (Bool-cases (j == i)) [
    | inl e ↦ let n : j ≡ i = ground arith in rw (e, n) p
    | inr e ↦ rw e (s.placed j)
  ];
  once = λ c j. ground (arith, here c, there c j);
  apart = λ c j k hj hk. ground (arith, less c, s.apart c j k, s.apart c i k, s.apart c j i);
}

forget-IsSound :
    (cell : ℕ) (free : List ℕ) (chains : ℕ → List SmtpInfo)
    → IsSound (cell ∷ free) chains
    → IsSound free chains
unfolding free_times
forget-IsSound cell free chains s = record {
  placed = s.placed;
  once = λ c i. ground (arith, s.once c i);
  apart = s.apart;
}

link-IsSound :
    (info : SmtpInfo) (free : List ℕ) (chains : ℕ → List SmtpInfo)
    → IsSound (info.cell ∷ free) chains
    → IsSound free (set_chain info.hash_index (info ∷ chains info.hash_index) chains)
unfolding free_times used_times
link-IsSound info free chains s =
    let i = info.hash_index in
    record {
      placed = λ j. elim (Bool-cases (j == i)) [
        | inl e ↦
            let n : j ≡ i = ground arith in
            rw e (sym n, subst (λ k. Placed j (chains k)) n (s.placed j))
        | inr e ↦ rw e (s.placed j)
      ];
      once = λ c j. ground (arith, s.once c j, s.once c i);
      apart = λ c j k hj hk.
          ground (arith, s.apart c j k, s.apart c i k, s.apart c j i, s.once c j, s.once c k);
    }

free-IsSound :
    (info : SmtpInfo) (free : List ℕ) (chains : ℕ → List SmtpInfo)
    → IsSound free chains
    → 0 < used_times info.cell (chains info.hash_index)
    → IsSound
        (info.cell ∷ free)
        (set_chain info.hash_index (unlink info.cell (chains info.hash_index)) chains)
unfolding free_times
free-IsSound info free chains s linked =
    let i = info.hash_index in
    shrink-IsSound free (info.cell ∷ free) chains i (unlink info.cell (chains i)) s
      (unlink-Placed i info.cell (chains i) (s.placed i))
      (λ c. omega (arith, used_times-unlink c info.cell (chains i)))
      (λ c. ground (arith, s.once c i, used_times-unlink c info.cell (chains i)))
      (λ c j other. ground (arith, s.once c j, s.once c i, s.apart c j i))

back-IsSound :
    (info : SmtpInfo) (free : List ℕ) (chains : ℕ → List SmtpInfo)
    → IsSound free chains
    → IsSound free (set_chain info.hash_index (replace info (chains info.hash_index)) chains)
back-IsSound info free chains s =
    let i = info.hash_index in
    shrink-IsSound free free chains i (replace info (chains i)) s
      (replace-Placed i info (chains i) refl (s.placed i))
      (λ c. omega (arith, used_times-replace c info (chains i)))
      (λ c. omega (arith, s.once c i, used_times-replace c info (chains i)))
      (λ c j other. s.once c j)

-- The same connection, whatever its parsers and buffers hold.
pub record Same (info other : SmtpInfo) : Type 0 where
  pub same_cell : other.cell ≡ info.cell
  pub same_index : other.hash_index ≡ info.hash_index
  pub same_saddr : other.saddr ≡ info.saddr
  pub same_sport : other.sport ≡ info.sport
  pub same_daddr : other.daddr ≡ info.daddr
  pub same_dport : other.dport ≡ info.dport

abbrev pub Keeps : (SmtpInfo → ℤ × SmtpInfo) → Type 0
Keeps parse = (info : SmtpInfo) → Same info (parse info).1

-- The parsers leave a connection where it is.
pub record KeepsPlace (p : Parsers) : Type 0 where
  pub command_keeps : (info : SmtpInfo) → Same info (p.parse_smtp_command info).1
  pub message_keeps : (info : SmtpInfo) → Same info (p.parse_smtp_message info).1
  pub ack_keeps : (info : SmtpInfo) → Same info (p.parse_smtp_ack info).1

pub Same-refl : (info : SmtpInfo) → Same info info
Same-refl info = record {
  same_cell = refl;
  same_index = refl;
  same_saddr = refl;
  same_sport = refl;
  same_daddr = refl;
  same_dport = refl;
}

with_server : (info : SmtpInfo) (b : Buffer) → Same info (record info { server = b })
with_server info b = record {
  same_cell = refl;
  same_index = refl;
  same_saddr = refl;
  same_sport = refl;
  same_daddr = refl;
  same_dport = refl;
}

with_client : (info : SmtpInfo) (b : Buffer) → Same info (record info { client = b })
with_client info b = record {
  same_cell = refl;
  same_index = refl;
  same_saddr = refl;
  same_sport = refl;
  same_daddr = refl;
  same_dport = refl;
}

pub hold-Same :
    (info held : SmtpInfo) (to_client : Bool) (received : Bytes)
    → hold info to_client received ≡ some held
    → Same info held
unfolding hold hold_server hold_client
hold-Same info held true received e = server (receive info.server received) e
  where
    server : (b : Synced) → hold_server info b ≡ some held → Same info held
    server (no_error b) e =
        let same : record info { server = b } ≡ held = ground arith in
        subst (Same info) same (with_server info b)
    server error_buffer e = cc
hold-Same info held false received e = client (receive info.client received) e
  where
    client : (b : Synced) → hold_client info b ≡ some held → Same info held
    client (no_error b) e =
        let same : record info { client = b } ≡ held = ground arith in
        subst (Same info) same (with_client info b)
    client error_buffer e = cc

-- Where there is a table.
abbrev pub IfAny : (Table → Type 0) → Option Table → Type 0
IfAny P none = Unit
IfAny P (some t) = P t

-- A connection of the table.
pub record Linked (t : Table) (info : SmtpInfo) : Type 0 where
  pub linked : 0 < used_times info.cell (t.smtp_info_table info.hash_index)

pub take_cell-IsTable :
    (platform : Platform) (memory : Bytes) (t : Table) (a : TcpStream) (free : List ℕ)
    → IsSound free t.smtp_info_table
    → t.free_smtps ≡ free
    → IsTable (take_cell platform memory t a free).1
unfolding take_cell fill_cell malloc_bytes
take_cell-IsTable platform memory t a [] s e = rw e s
take_cell-IsTable platform memory t a (cell ∷ free) s e = elim (Bool-cases (platform.malloc 2049)) [
  | inl granted ↦ rw granted (
      link-IsSound
        (fresh_info a (a.hash_index % t.smtp_tbl_size) cell (take 2049 memory) (zeros 2049)) free
        t.smtp_info_table s)
  | inr refused ↦ rw refused (forget-IsSound cell free t.smtp_info_table s)
]

pub new-IsTable :
    (platform : Platform) (memory : Bytes) (t : Table) (a : TcpStream)
    → IsTable t
    → IsTable (new_smtp_info platform memory t a).1
unfolding new_smtp_info
new-IsTable platform memory t a s = elim (Bool-cases (ltb t.max_smtps t.smtp_num)) [
  | inl full ↦ rw full s
  | inr room ↦ rw room (take_cell-IsTable platform memory t a t.free_smtps s refl)
]

pub close-IsTable :
    (t : Table) (info : SmtpInfo)
    → IsTable t
    → Linked t info
    → IsTable (smtp_close_connection t (some info))
unfolding smtp_close_connection free_smtp_info
close-IsTable t info s l = free-IsSound info t.free_smtps t.smtp_info_table s l.linked

pub write_back-IsTable : (t : Table) (info : SmtpInfo) → IsTable t → IsTable (write_back t info)
unfolding write_back
write_back-IsTable t info s = back-IsSound info t.free_smtps t.smtp_info_table s

pub write_back-Linked :
    (t : Table) (info : SmtpInfo) → Linked t info → Linked (write_back t info) info
unfolding write_back
write_back-Linked t info l = record {
  linked =
      ground
        (arith, l.linked, used_times-replace info.cell info (t.smtp_info_table info.hash_index));
}

pub search-Linked :
    (t : Table) (a : TcpStream) {info : SmtpInfo}
    → IsTable t
    → search_smtp_info t a ≡ some info
    → Linked t info
unfolding search_smtp_info
search-Linked t a {info} s e =
    let i = a.hash_index % t.smtp_tbl_size in
    let here = search_chain-Placed a i (t.smtp_info_table i) (s.placed i) e in
    record { linked = rw here (search_chain-used a (t.smtp_info_table i) e) }
