-- ===== src/Session/Table.antt =====
-- The connections of src/smtp.c: smtp_init, new_smtp_info, search_smtp_info, free_smtp_info and
-- smtp_close_connection. A pointer into smtp_info_pool is the number of its cell. The list of free
-- cells and the chains of the hash table are lists; what prev_node and next_node link is next to
-- each other in its chain.
pub mod Lookup
pub mod Pool
use Prim.Native.Nat.{bit_or}
use smtp_nel_filter.Prelude.{
  ℕ, zero, suc, ◌+◌, ◌-◌, ◌*◌, ◌/◌, ◌%◌, Bool, true, false, not, ◌&&◌, ◌||◌, Option, none, some,
  List, [], ◌∷◌, Bytes, take, ltb, ◌==◌, if◌then◌else◌,
}
use smtp_nel_filter.Platform.{Platform}
use smtp_nel_filter.Session.Buffer.{Buffer}

-- What libnids tells of a stream: `a_tcp->addr` and `a_tcp->hash_index`.
pub record Addr : Type 0 where
  pub saddr : ℕ
  pub source : ℕ
  pub daddr : ℕ
  pub dest : ℕ

pub record TcpStream : Type 0 where
  pub addr : Addr
  pub hash_index : ℕ

-- A cell in use. The strings and stacks that the parsers of commands and messages keep are left
-- out.
pub record SmtpInfo : Type 0 where
  pub cell : ℕ
  pub hash_index : ℕ
  pub saddr : ℕ
  pub sport : ℕ
  pub daddr : ℕ
  pub dport : ℕ
  pub connect_state : ℕ
  pub curr_parse_state : ℕ
  pub mail_state : ℕ
  pub permit : ℕ
  pub client : Buffer
  pub server : Buffer

-- The static variables of the file.
pub record Table : Type 0 where
  pub smtp_tbl_size : ℕ
  pub max_smtps : ℕ
  pub smtp_num : ℕ
  pub smtp_info_table : ℕ → List SmtpInfo
  pub free_smtps : List ℕ

-- The numbers from `i` on, `n` of them.
unfoldable pub cells : ℕ → ℕ → List ℕ
cells i zero = []
cells i (suc n) = i ∷ cells (i + 1) n

-- `sizeof_info` is sizeof (struct smtp_info). `smtp_num` is 0 from the start.
unfoldable pub smtp_init : Platform → ℕ → ℕ → Option Table
smtp_init platform sizeof_info smtp_tbl_size =
    let max_smtps = 3 * smtp_tbl_size / 4 in
    if not (platform.malloc (smtp_tbl_size * platform.sizeof_ptr))
    then none
    else if not (platform.malloc ((max_smtps + 1) * sizeof_info))
    then none
    else some (record {
      smtp_tbl_size = smtp_tbl_size;
      max_smtps = max_smtps;
      smtp_num = 0;
      smtp_info_table = λ i. [];
      free_smtps = cells 0 (max_smtps + 1);
    })

-- smtp_info_table[i] = chain
abbrev pub set_chain : ℕ → List SmtpInfo → (ℕ → List SmtpInfo) → ℕ → List SmtpInfo
set_chain i chain chains j = if j == i then chain else chains j

-- A fresh connection in a cell. The arrays hold `cli_memory`, whatever malloc left there, and
-- `svr_memory`, which memset cleared.
abbrev pub fresh_info : TcpStream → ℕ → ℕ → Bytes → Bytes → SmtpInfo
fresh_info stream hash_index cell cli_memory svr_memory = record {
  cell = cell;
  hash_index = hash_index;
  saddr = stream.addr.saddr;
  sport = stream.addr.source;
  daddr = stream.addr.daddr;
  dport = stream.addr.dest;
  connect_state = 0;
  curr_parse_state = 0;
  mail_state = 0;
  permit = 0;
  client = record { buf = cli_memory; start = 0; data_len = 0 };
  server = record { buf = svr_memory; start = 0; data_len = 0 };
}

-- Where the new connection is linked: in front of its chain.
abbrev pub link_info : Table → SmtpInfo → List ℕ → Table
link_info t info free = record t {
  smtp_num = t.smtp_num + 1;
  smtp_info_table =
      set_chain info.hash_index (info ∷ t.smtp_info_table info.hash_index) t.smtp_info_table;
  free_smtps = free;
}

unfoldable pub zeros : ℕ → Bytes
zeros zero = []
zeros (suc n) = 0 ∷ zeros n

-- malloc of an array of bytes. `memory` is what stands in memory from its answer on, of which the
-- array is as many bytes as were asked for.
unfoldable pub malloc_bytes : Platform → Bytes → ℕ → Option Bytes
malloc_bytes platform memory size = if platform.malloc size then some (take size memory) else none

-- Behind the request for cli_buf; svr_buf is an array of the structure. The later requests for memory
-- are not tested by the code and are taken to succeed.
unfoldable pub fill_cell : Table → TcpStream → ℕ → List ℕ → Option Bytes → Option SmtpInfo × Table
fill_cell t stream cell free none = (none, record t { free_smtps = free })
fill_cell t stream cell free (some cli_buf) =
    let info = fresh_info stream (stream.hash_index % t.smtp_tbl_size) cell cli_buf (zeros 2049) in
    (some info, link_info t info free)

-- With a free cell at hand; SMTP_BUF_LEN + 1 is 2049.
unfoldable pub take_cell : Platform → Bytes → Table → TcpStream → List ℕ → Option SmtpInfo × Table
take_cell platform memory t stream [] = (none, t)
take_cell platform memory t stream (cell ∷ free) =
    fill_cell t stream cell free (malloc_bytes platform memory 2049)

-- The null pointer is `none`.
unfoldable pub new_smtp_info : Platform → Bytes → Table → TcpStream → Option SmtpInfo × Table
new_smtp_info platform memory t stream =
    if ltb t.max_smtps t.smtp_num
    then (none, t)
    else take_cell platform memory t stream t.free_smtps

-- The two tests of the loop of search_smtp_info.
unfoldable pub from_source : TcpStream → SmtpInfo → Bool
from_source a info =
    a.addr.source == info.sport
    && a.addr.dest == info.dport
    && a.addr.saddr == info.saddr
    && a.addr.daddr == info.daddr

unfoldable pub from_dest : TcpStream → SmtpInfo → Bool
from_dest a info =
    a.addr.source == info.dport
    && a.addr.dest == info.dport
    && a.addr.saddr == info.daddr
    && a.addr.daddr == info.saddr

unfoldable pub search_chain : TcpStream → List SmtpInfo → Option SmtpInfo
search_chain a [] = none
search_chain a (info ∷ chain) =
    if from_source a info || from_dest a info then some info else search_chain a chain

unfoldable pub search_smtp_info : Table → TcpStream → Option SmtpInfo
search_smtp_info t a = search_chain a (t.smtp_info_table (a.hash_index % t.smtp_tbl_size))

-- A chain without a cell.
unfoldable pub unlink : ℕ → List SmtpInfo → List SmtpInfo
unlink cell [] = []
unlink cell (info ∷ chain) = if info.cell == cell then chain else info ∷ unlink cell chain

unfoldable pub free_smtp_info : Table → SmtpInfo → Table
free_smtp_info t info = record t {
  smtp_num = t.smtp_num - 1;
  smtp_info_table =
      set_chain info.hash_index (unlink info.cell (t.smtp_info_table info.hash_index))
        t.smtp_info_table;
  free_smtps = info.cell ∷ t.free_smtps;
}

-- Both ends are marked as closed, and the cell is given back.
unfoldable pub smtp_close_connection : Table → Option SmtpInfo → Table
smtp_close_connection t none = t
smtp_close_connection t (some info) =
    free_smtp_info t (record info { connect_state = bit_or (bit_or info.connect_state 1) 2 })
