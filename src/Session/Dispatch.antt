-- ===== src/Session/Dispatch.antt =====
-- process_smtp of src/smtp.c with smtp_deny, parse_smtp_client and parse_smtp_server, and
-- process_tcpdata of src/tcp.c, which libnids calls. The counter of packets is only printed.
pub mod Cells
pub mod Places
pub mod Invariant
pub mod Life
pub mod Refusal
use Prim.Native.Nat.{bit_or}
use smtp_nel_filter.Prelude.{
  ℕ, ◌%◌, Bool, true, false, ◌||◌, Option, none, some, List, [], ◌∷◌, Bytes, ◌==◌, if◌then◌else◌,
  length, ℤ, pos, negsuc,
}
use smtp_nel_filter.Platform.{Platform}
use smtp_nel_filter.Session.Buffer.{Buffer, Synced, no_error, error_buffer, receive}
use smtp_nel_filter.Session.Table.{
  TcpStream, SmtpInfo, Table, set_chain, new_smtp_info, search_smtp_info, smtp_close_connection,
}

unfoldable pub smtp_deny : Option SmtpInfo → Option SmtpInfo
smtp_deny none = none
smtp_deny (some psmtp) = some (record psmtp { permit = bit_or psmtp.permit 2 })

-- The parsers of commands, messages and answers: the code that they return, and the connection as
-- they leave it.
pub record Parsers : Type 0 where
  pub parse_smtp_command : SmtpInfo → ℤ × SmtpInfo
  pub parse_smtp_message : SmtpInfo → ℤ × SmtpInfo
  pub parse_smtp_ack : SmtpInfo → ℤ × SmtpInfo

-- SMTP_STATE_UNCERTAIN is 0, SMTP_STATE_PARSE_COMMAND 1, SMTP_STATE_PARSE_MESSAGE 4, and
-- SMTP_ERROR_PARSE -12.
unfoldable pub parse_smtp_client : Parsers → SmtpInfo → ℤ × SmtpInfo
parse_smtp_client p psmtp =
    if psmtp.curr_parse_state == 0 || psmtp.curr_parse_state == 1
    then p.parse_smtp_command psmtp
    else if psmtp.curr_parse_state == 4
    then p.parse_smtp_message psmtp
    else (negsuc 11, psmtp)

unfoldable pub parse_smtp_server : Parsers → SmtpInfo → ℤ × SmtpInfo
parse_smtp_server p psmtp = p.parse_smtp_ack psmtp

-- What is written through the pointer `psmtp`, in the chain that its cell is linked into.
unfoldable pub replace : SmtpInfo → List SmtpInfo → List SmtpInfo
replace psmtp [] = []
replace psmtp (info ∷ chain) =
    let rest = replace psmtp chain in if info.cell == psmtp.cell then psmtp ∷ chain else info ∷ rest

unfoldable pub write_back : Table → SmtpInfo → Table
write_back t psmtp = record t {
  smtp_info_table =
      set_chain psmtp.hash_index (replace psmtp (t.smtp_info_table psmtp.hash_index))
        t.smtp_info_table;
}

-- The buffer of the side that the bytes go to, if they fit.
unfoldable pub hold_server : SmtpInfo → Synced → Option SmtpInfo
hold_server psmtp (no_error b) = some (record psmtp { server = b })
hold_server psmtp error_buffer = none

unfoldable pub hold_client : SmtpInfo → Synced → Option SmtpInfo
hold_client psmtp (no_error b) = some (record psmtp { client = b })
hold_client psmtp error_buffer = none

unfoldable pub hold : SmtpInfo → Bool → Bytes → Option SmtpInfo
hold psmtp true received = hold_server psmtp (receive psmtp.server received)
hold psmtp false received = hold_client psmtp (receive psmtp.client received)

-- `if (ret < 0)`
unfoldable pub after_parse : Table → ℤ × SmtpInfo → ℤ × Table
after_parse t (pos ret, psmtp) = (pos ret, write_back t psmtp)
after_parse t (negsuc ret, psmtp) =
    (negsuc ret, smtp_close_connection (write_back t psmtp) (some psmtp))

unfoldable pub parse_held : Parsers → Table → Bool → Option SmtpInfo → ℤ × Table
parse_held p t to_client none = (negsuc 0, t)
parse_held p t to_client (some psmtp) =
    after_parse t (if to_client then parse_smtp_server p psmtp else parse_smtp_client p psmtp)

-- enum of include/tcp.h
pub data ConnType : Type 0 where
  conn_null conn_est conn_data conn_asst conn_close conn_loss conn_dup conn_error conn_max
        conn_tmo :
      ConnType

-- `ret` is -1 unless a case sets it.
unfoldable pub process_found : Parsers → Table → SmtpInfo → Bytes → Bool → ConnType → ℤ × Table
process_found p t psmtp received to_client conn_est = (pos 0, t)
process_found p t psmtp received to_client conn_close =
    (pos 0, smtp_close_connection t (some psmtp))
process_found p t psmtp received to_client conn_data =
    if length received == 0
    then (negsuc 0, t)
    else parse_held p t to_client (hold psmtp to_client received)
process_found p t psmtp received to_client conn_null = (negsuc 0, t)
process_found p t psmtp received to_client conn_asst = (negsuc 0, t)
process_found p t psmtp received to_client conn_loss = (negsuc 0, t)
process_found p t psmtp received to_client conn_dup = (negsuc 0, t)
process_found p t psmtp received to_client conn_error = (negsuc 0, t)
process_found p t psmtp received to_client conn_max = (negsuc 0, t)
process_found p t psmtp received to_client conn_tmo = (negsuc 0, t)

unfoldable pub process_search :
    Parsers → Table → Bytes → Bool → ConnType → Option SmtpInfo → ℤ × Table
process_search p t received to_client conn_type none = (negsuc 0, t)
process_search p t received to_client conn_type (some psmtp) =
    process_found p t psmtp received to_client conn_type

-- `received` are the `size` bytes of the stream's data; `memory` is what malloc leaves in a buffer.
unfoldable pub process_lookup : Parsers → Table → TcpStream → Bytes → Bool → ConnType → ℤ × Table
process_lookup p t a_tcp received to_client conn_type =
    process_search p t received to_client conn_type (search_smtp_info t a_tcp)

-- Behind new_smtp_info.
unfoldable pub process_new :
    Parsers → TcpStream → Bytes → Bool → Option SmtpInfo × Table → ℤ × Table
process_new p a_tcp received to_client (none, t) = (negsuc 0, t)
process_new p a_tcp received to_client (some psmtp, t) =
    process_lookup p t a_tcp received to_client conn_est

unfoldable pub is_est : ConnType → Bool
is_est conn_est = true
is_est conn_null = false
is_est conn_data = false
is_est conn_asst = false
is_est conn_close = false
is_est conn_loss = false
is_est conn_dup = false
is_est conn_error = false
is_est conn_max = false
is_est conn_tmo = false

unfoldable pub process_smtp :
    Platform → Bytes → Parsers → Table → TcpStream → Bytes → Bool → ConnType → ℤ × Table
process_smtp platform memory p t a_tcp received to_client conn_type =
    if is_est conn_type
    then process_new p a_tcp received to_client (new_smtp_info platform memory t a_tcp)
    else process_lookup p t a_tcp received to_client conn_type

-- `nids_state`; `nids_other` is any other value.
pub data NidsState : Type 0 where
  nids_just_est nids_close nids_reset nids_data nids_other : NidsState

-- What libnids hands to process_tcpdata: the stream, and the first `count_new` bytes of the data of
-- each half.
pub record Packet : Type 0 where
  pub nids_state : NidsState
  pub stream : TcpStream
  pub client_new : Bytes
  pub server_new : Bytes

-- New data: the half for the server is looked at last. Without any, `hlf` is the null pointer.
unfoldable pub process_new_data : Platform → Bytes → Parsers → Table → Packet → Option Table
process_new_data platform memory p t packet =
    if length packet.server_new == 0
    then (if length packet.client_new == 0
        then none
        else some
            (process_smtp platform memory p t packet.stream packet.client_new true conn_data).1)
    else some (process_smtp platform memory p t packet.stream packet.server_new false conn_data).1

unfoldable pub process_state :
    Platform → Bytes → Parsers → Table → Packet → NidsState → Option Table
process_state platform memory p t packet nids_just_est =
    if packet.stream.addr.dest == 25
    then some (process_smtp platform memory p t packet.stream [] false conn_est).1
    else some t
process_state platform memory p t packet nids_close =
    some (process_smtp platform memory p t packet.stream [] false conn_close).1
process_state platform memory p t packet nids_reset =
    some (process_smtp platform memory p t packet.stream [] false conn_close).1
process_state platform memory p t packet nids_data = process_new_data platform memory p t packet
process_state platform memory p t packet nids_other = some t

-- `none` is a dereference of the null pointer. The counters of libnids that are increased for a new
-- stream are left out.
unfoldable pub process_tcpdata : Platform → Bytes → Parsers → Table → Packet → Option Table
process_tcpdata platform memory p t packet =
    process_state platform memory p t packet packet.nids_state
