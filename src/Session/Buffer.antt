-- ===== src/Session/Buffer.antt =====
-- The two buffers of a connection in src/smtp.c: sync_client_data, sync_server_data,
-- reset_client_buf, reset_server_buf, and the receipt of data in process_smtp.
pub mod Queue
pub mod Bounded
use smtp_nel_filter.Prelude.{
  ℕ, ◌+◌, ◌-◌, Bool, ◌||◌, ◌∷◌, [], ◌++◌, Bytes, ltb, ◌==◌, if◌then◌else◌, length, take, drop,
}

-- `buf` is the memory of cli_buf or svr_buf; `start` is cli_data - cli_buf, and `data_len` is
-- cli_data_len. The size cli_buf_len of the array is `length buf`. Both numbers are natural, so
-- the source's tests for a pointer before the buffer and a negative length have no counterpart.
pub record Buffer : Type 0 where
  pub buf : Bytes
  pub start : ℕ
  pub data_len : ℕ

-- What sync_client_data and the like return.
pub data Synced : Type 0 where
  no_error : Buffer → Synced
  error_buffer : Synced

-- memmove (buf, buf + from, n)
abbrev pub memmove : Bytes → ℕ → ℕ → Bytes
memmove buf from n = take n (drop from buf) ++ drop n buf

-- memcpy (buf + at, src, length src)
abbrev pub memcpy : Bytes → ℕ → Bytes → Bytes
memcpy buf at src = take at buf ++ (src ++ drop (at + length src) buf)

-- `sync all`, which both sides share.
unfoldable pub sync_all : Buffer → ℕ → Buffer
sync_all b processed =
    let len = b.data_len - processed in
    record {
      buf = if ltb 0 len then memmove b.buf (b.start + processed) len else b.buf;
      start = 0;
      data_len = len;
    }

unfoldable pub sync_server_data : Buffer → ℕ → Synced
sync_server_data b processed =
    if ltb b.data_len processed
    then error_buffer
    else if b.start + processed == 0
    then no_error b
    else no_error (sync_all b processed)

unfoldable pub sync_client_data : Buffer → ℕ → Synced
sync_client_data b processed =
    if ltb (length b.buf - 1) b.start
      || ltb (length b.buf - 1) b.data_len
      || ltb (length b.buf - 1) (b.start + b.data_len)
    then error_buffer
    else if ltb b.data_len processed
    then error_buffer
    else if b.start + processed == 0
    then no_error b
    else no_error (sync_all b processed)

-- reset_client_buf and reset_server_buf; the cursor `*index` becomes 0 beside it.
unfoldable pub reset_buf : Buffer → Buffer
reset_buf b = record b { start = 0; data_len = 0 }

-- `left_len` is an `int` that is compared with the `size_t` size: below zero it counts as 2^64 less
-- that much.
abbrev pub left_len : ℕ → ℕ → ℕ
left_len cap used = if ltb cap used then 18446744073709551616 - (used - cap) else cap - used

-- The receipt of `size` bytes in process_smtp: refused if they do not fit before the last byte of
-- the array, which is kept for the NUL.
unfoldable pub receive : Buffer → Bytes → Synced
receive b received =
    let used_len = b.start + b.data_len in
    if ltb (left_len (length b.buf - 1) used_len) (length received)
    then error_buffer
    else no_error (record b {
      buf = memcpy (memcpy b.buf used_len received) (used_len + length received) (0 ∷ []);
      data_len = b.data_len + length received;
    })
