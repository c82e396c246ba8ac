-- ===== src/Session/Dispatch/Life.antt =====
-- A connection from its first packet to its last.
use mathlib.Core.Path.{fun_ext, subst}
use smtp_nel_filter.Prelude.{
  take, ℕ, ◌+◌, ◌%◌, ◌≡◌, refl, sym, ap, ◌∙◌, arith, Bool, true, false, ◌⊎◌, inl, inr, Option, none,
  some, List, [], ◌∷◌, Bytes, ◌==◌, if◌then◌else◌, length, ℤ, pos, negsuc, Bool-cases,
}
use smtp_nel_filter.Platform.{Platform}
use smtp_nel_filter.Session.Table.{
  TcpStream, SmtpInfo, Table, set_chain, fresh_info, link_info, zeros, new_smtp_info, from_source,
  search_chain, search_smtp_info, free_smtp_info, smtp_close_connection,
}
use smtp_nel_filter.Session.Table.Pool.{free-link, new-Made, set_chain-at}
use smtp_nel_filter.Session.Dispatch.{
  Parsers, parse_smtp_client, parse_smtp_server, replace, write_back, hold, after_parse, parse_held,
  conn_est, conn_data, conn_close, process_found, process_search, process_lookup, process_new,
  is_est, process_smtp,
}
use smtp_nel_filter.Session.Dispatch.Places.{Same, Same-refl, hold-Same, KeepsPlace}
use smtp_nel_filter.Session.Dispatch.Invariant.{client-Same}

Same-trans : {a b c : SmtpInfo} → Same a b → Same b c → Same a c
Same-trans p q = record {
  same_cell = q.same_cell ∙ p.same_cell;
  same_index = q.same_index ∙ p.same_index;
  same_saddr = q.same_saddr ∙ p.same_saddr;
  same_sport = q.same_sport ∙ p.same_sport;
  same_daddr = q.same_daddr ∙ p.same_daddr;
  same_dport = q.same_dport ∙ p.same_dport;
}

from_source-Same :
    (a : TcpStream) (info other : SmtpInfo)
    → Same info other
    → from_source a other ≡ from_source a info
unfolding from_source
from_source-Same a info other s = rw (s.same_sport, s.same_dport, s.same_saddr, s.same_daddr)

set_chain-twice :
    (i : ℕ) (x y : List SmtpInfo) (chains : ℕ → List SmtpInfo)
    → set_chain i x (set_chain i y chains) ≡ set_chain i x chains
set_chain-twice i x y chains = fun_ext (λ j. at j (j == i))
  where
    at :
        (j : ℕ) (same : Bool)
        → (if same then x else (if same then y else chains j)) ≡ (if same then x else chains j)
    at j true = refl
    at j false = refl

replace-front :
    (info other : SmtpInfo) (chain : List SmtpInfo)
    → Same info other
    → replace other (info ∷ chain) ≡ other ∷ chain
unfolding replace
replace-front info other chain s =
    let here : (info.cell == other.cell) ≡ true = ground (arith, s.same_cell) in rw here

replaced_chain :
    (i j : ℕ) (info other : SmtpInfo) (chains : ℕ → List SmtpInfo)
    → j ≡ i
    → Same info other
    → set_chain j
        (replace other (set_chain i (info ∷ chains i) chains j))
        (set_chain i (info ∷ chains i) chains)
      ≡ set_chain j (other ∷ chains j) chains
replaced_chain i j info other chains e s =
    rw (e, set_chain-at i (info ∷ chains i) chains, replace-front info other (chains i) s)
      (set_chain-twice i (other ∷ chains i) (info ∷ chains i) chains)

write_back-link :
    (t : Table) (info other : SmtpInfo) (free : List ℕ)
    → Same info other
    → write_back (link_info t info free) other ≡ link_info t other free
unfolding write_back
write_back-link t info other free s =
    ap
      (λ chains. record t {
        smtp_num = t.smtp_num + 1;
        smtp_info_table = chains;
        free_smtps = free;
      })
      (replaced_chain info.hash_index other.hash_index info other t.smtp_info_table s.same_index s)

-- The connection of the stream `a`, in front of its chain, and else the table `t`.
record Open (t : Table) (a : TcpStream) (now : Table) : Type 0 where
  info : SmtpInfo
  free : List ℕ
  linked : now ≡ link_info t info free
  ours : from_source a info ≡ true
  index : info.hash_index ≡ a.hash_index % t.smtp_tbl_size
  cell : t.free_smtps ≡ info.cell ∷ free

search-Open :
    {t now : Table} {a : TcpStream} (o : Open t a now) → search_smtp_info now a ≡ some o.info
unfolding search_smtp_info search_chain
search-Open {t} {now} {a} o =
    ap (λ x. search_smtp_info x a) o.linked
    ∙ rw (← o.index) (
        rw (
          set_chain-at o.info.hash_index (o.info ∷ t.smtp_info_table o.info.hash_index)
              t.smtp_info_table,
          o.ours,
        ))

close-Open :
    {t now : Table} {a : TcpStream} (o : Open t a now) → smtp_close_connection now (some o.info) ≡ t
unfolding smtp_close_connection free_smtp_info
close-Open {t} o =
    ap (λ x. smtp_close_connection x (some o.info)) o.linked
    ∙ free-link t o.info o.free
    ∙ ap (λ free. record t { free_smtps = free }) (sym o.cell)

-- The connection is still there, as the parsers left it, or it was closed.
abbrev OpenOrGone : Table → TcpStream → Table → Type 0
OpenOrGone t a now = Open t a now ⊎ (now ≡ t)

-- What arrives on the stream, each with the direction.
pub feed : Parsers → Platform → Bytes → TcpStream → List (Bytes × Bool) → Table → Table
feed p platform memory a [] t = t
feed p platform memory a ((received, to_client) ∷ pieces) t =
    feed p platform memory a pieces
      (process_smtp platform memory p t a received to_client conn_data).1

module _ (p : Parsers) (keeps : KeepsPlace p) where
  parsed-Open :
      {t now : Table} {a : TcpStream} (o : Open t a now) (r : ℤ × SmtpInfo)
      → Same o.info r.1
      → OpenOrGone t a (after_parse now r).1
  unfolding after_parse
  parsed-Open {t} {now} {a} o (code, other) s = answered code
    where
      written : Open t a (write_back now other)
      written = record {
        info = other;
        free = o.free;
        linked = ap (λ x. write_back x other) o.linked ∙ write_back-link t o.info other o.free s;
        ours = from_source-Same a o.info other s ∙ o.ours;
        index = s.same_index ∙ o.index;
        cell = o.cell ∙ ap (λ c. c ∷ o.free) (sym s.same_cell);
      }

      answered : (code : ℤ) → OpenOrGone t a (after_parse now (code, other)).1
      answered (pos n) = inl written
      answered (negsuc n) = inr (close-Open written)

  held-Open :
      {t now : Table} {a : TcpStream} (o : Open t a now) (to_client : Bool) (held : Option SmtpInfo)
      → ((info : SmtpInfo) → held ≡ some info → Same o.info info)
      → OpenOrGone t a (parse_held p now to_client held).1
  unfolding parse_held parse_smtp_server
  held-Open o to_client none s = inl o
  held-Open o true (some info) s =
      parsed-Open o (p.parse_smtp_ack info) (Same-trans (s info refl) (keeps.ack_keeps info))
  held-Open o false (some info) s =
      parsed-Open o (parse_smtp_client p info) (Same-trans (s info refl) (client-Same p keeps info))

  data-Open :
      (platform : Platform) (memory : Bytes) {t now : Table} {a : TcpStream} (received : Bytes)
      (to_client : Bool)
      → Open t a now
      → OpenOrGone t a (process_smtp platform memory p now a received to_client conn_data).1
  unfolding process_smtp process_lookup process_search process_found is_est
  data-Open platform memory received to_client o =
      rw (search-Open o) (elim (Bool-cases (length received == 0)) [
        | inl e ↦ rw e (inl o)
        | inr e ↦ rw e (
            held-Open o to_client (hold o.info to_client received)
              (λ info h. hold-Same o.info info to_client received h))
      ])

  data-gone :
      (platform : Platform) (memory : Bytes) (t : Table) (a : TcpStream) (received : Bytes)
      (to_client : Bool)
      → search_smtp_info t a ≡ none
      → (process_smtp platform memory p t a received to_client conn_data).1 ≡ t
  unfolding process_smtp process_lookup process_search is_est
  data-gone platform memory t a received to_client absent = rw absent

  feed-gone :
      (platform : Platform) (memory : Bytes) (t : Table) (a : TcpStream)
      (pieces : List (Bytes × Bool))
      → search_smtp_info t a ≡ none
      → feed p platform memory a pieces t ≡ t
  unfolding feed
  feed-gone platform memory t a [] absent = refl
  feed-gone platform memory t a ((received, to_client) ∷ pieces) absent =
      ap (feed p platform memory a pieces) (data-gone platform memory t a received to_client absent)
      ∙ feed-gone platform memory t a pieces absent

  feed-Open :
      (platform : Platform) (memory : Bytes) (pieces : List (Bytes × Bool)) {t now : Table}
      {a : TcpStream}
      → search_smtp_info t a ≡ none
      → OpenOrGone t a now
      → OpenOrGone t a (feed p platform memory a pieces now)
  unfolding feed
  feed-Open platform memory [] absent o = o
  feed-Open platform memory (piece ∷ pieces) {t} {a = a} absent (inr gone) = inr (
      ap (feed p platform memory a (piece ∷ pieces)) gone
      ∙ feed-gone platform memory t a (piece ∷ pieces) absent)
  feed-Open platform memory ((received, to_client) ∷ pieces) absent (inl o) =
      feed-Open platform memory pieces absent (data-Open platform memory received to_client o)

  closed :
      (platform : Platform) (memory : Bytes) {t now : Table} {a : TcpStream}
      → search_smtp_info t a ≡ none
      → OpenOrGone t a now
      → (process_smtp platform memory p now a [] false conn_close).1 ≡ t
  unfolding process_smtp process_lookup process_search process_found is_est
  closed platform memory absent (inl o) = rw (search-Open o) (close-Open o)
  closed platform memory absent (inr gone) = rw (gone, absent)

new-Open :
    (platform : Platform) (memory : Bytes) (t : Table) (a : TcpStream) {info : SmtpInfo}
    {t' : Table}
    → new_smtp_info platform memory t a ≡ (some info, t')
    → Open t a t'
new-Open platform memory t a {info} e =
    let m = new-Made platform memory t a e in
    let fresh : Same
        (fresh_info a (a.hash_index % t.smtp_tbl_size) info.cell (take 2049 memory) (zeros 2049))
        info =
      rw (sym m.made) (Same-refl info) in
    record {
      info = info;
      free = m.free;
      linked = m.linked;
      ours = from_source-Same a _ info fresh ∙ (unfold from_source in ground arith);
      index = fresh.same_index;
      cell = m.free_cells;
    }

established :
    (p : Parsers) (platform : Platform) (memory : Bytes) (t : Table) (a : TcpStream)
    {info : SmtpInfo} {t' : Table}
    → new_smtp_info platform memory t a ≡ (some info, t')
    → (process_smtp platform memory p t a [] false conn_est).1 ≡ t'
unfolding process_smtp process_new process_lookup process_search process_found is_est
established p platform memory t a e = rw (e, search-Open (new-Open platform memory t a e))

-- A stream that the table does not know leaves it as it was: made when the stream is established, if
-- there is room, the connection is gone when the stream is closed, whatever arrives in between, and
-- whatever the parsers answer, if they change neither its place nor its addresses.
pub process_smtp-life :
    (p : Parsers) (platform : Platform) (memory : Bytes) (t : Table) (a : TcpStream)
    (pieces : List (Bytes × Bool)) {info : SmtpInfo} {t' : Table}
    → KeepsPlace p
    → search_smtp_info t a ≡ none
    → new_smtp_info platform memory t a ≡ (some info, t')
    → let established = (process_smtp platform memory p t a [] false conn_est).1 in
      let fed = feed p platform memory a pieces established in
      (process_smtp platform memory p fed a [] false conn_close).1 ≡ t
process_smtp-life p platform memory t a pieces keeps absent e =
    closed p keeps platform memory absent (
      feed-Open p keeps platform memory pieces absent (
        inl (
          subst (Open t a) (sym (established p platform memory t a e))
            (new-Open platform memory t a e))))
