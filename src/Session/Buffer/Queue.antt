-- ===== src/Session/Buffer/Queue.antt =====
-- The buffer is a queue of bytes: receiving appends, syncing drops what was parsed, and nothing
-- is lost, repeated or written outside the array.
use mathlib.Core.List.{append_assoc}
use smtp_nel_filter.Prelude.{
  leb, ◌==◌, Bool, true, false, if◌then◌else◌, ltb, ℕ, ◌+◌, ◌-◌, ◌≤◌, ◌<◌, ◌≡◌, refl, ◌∙◌, sym, ap,
  arith, Bytes, [], ◌∷◌, ◌++◌, length, length-append, take, drop,
}
use smtp_nel_filter.Prelude.Slices.{
  length-take, length-drop, drop-drop, drop-take, take-append_le, take-take, drop-append_le,
  take-length_le,
}
use smtp_nel_filter.Session.Buffer.{
  Buffer, Synced, no_error, error_buffer, memmove, memcpy, sync_all, sync_server_data,
  sync_client_data, left_len, receive,
}

-- The data lies in the array, with a byte to spare for the NUL.
pub record IsValid (b : Buffer) : Type 0 where
  pub fits : b.start + b.data_len < length b.buf

-- The bytes that are not parsed yet.
abbrev pub pending : Buffer → Bytes
pending b = take b.data_len (drop b.start b.buf)

-- Whether memory of the array's size is kept, and what is pending.
pub record Holds (b : Buffer) (size : ℕ) (bytes : Bytes) : Type 0 where
  pub valid : IsValid b
  pub same_size : length b.buf ≡ size
  pub bytes_pending : pending b ≡ bytes

length-memmove :
    (buf : Bytes) (from n : ℕ) → from + n ≤ length buf → length (memmove buf from n) ≡ length buf
length-memmove buf from n h = omega (
  arith,
  length-append (take n (drop from buf)) (drop n buf),
  length-take n (drop from buf) (omega (arith, length-drop from buf)),
  length-drop n buf,
)

length-memcpy :
    (buf : Bytes) (at : ℕ) (src : Bytes)
    → at + length src ≤ length buf
    → length (memcpy buf at src) ≡ length buf
length-memcpy buf at src h = omega (
  arith,
  length-append (take at buf) (src ++ drop (at + length src) buf),
  length-append src (drop (at + length src) buf),
  length-take at buf (omega arith),
  length-drop (at + length src) buf,
)

-- memmove puts the rest of the data at the front.
take-memmove :
    (buf : Bytes) (from n : ℕ)
    → from + n ≤ length buf
    → take n (memmove buf from n) ≡ take n (drop from buf)
take-memmove buf from n h =
    let l : length (take n (drop from buf)) ≡ n =
      length-take n (drop from buf) (omega (arith, length-drop from buf)) in
    take-append_le n (take n (drop from buf)) (drop n buf) (omega arith)
    ∙ take-length_le n (take n (drop from buf)) (omega arith)

-- The pending bytes after a sync, whether bytes had to be moved or not.
sync_all-pending :
    (b : Buffer) (processed : ℕ)
    → IsValid b
    → processed ≤ b.data_len
    → pending (sync_all b processed) ≡ drop processed (pending b)
unfolding sync_all
sync_all-pending b processed v h =
    moved (ltb 0 (b.data_len - processed)) refl
    ∙ ap (take (b.data_len - processed)) (sym (drop-drop processed b.start b.buf))
    ∙ sym (drop-take processed b.data_len (drop b.start b.buf))
  where
    moved :
        (t : Bool)
        → ltb 0 (b.data_len - processed) ≡ t
        → take
            (b.data_len - processed)
            (if t then memmove b.buf (b.start + processed) (b.data_len - processed) else b.buf)
          ≡ take (b.data_len - processed) (drop (b.start + processed) b.buf)
    moved true e =
        take-memmove b.buf (b.start + processed) (b.data_len - processed) (omega (arith, v.fits))
    moved false e = let none_left : b.data_len - processed ≡ 0 = ground arith in rw none_left

sync_all-length :
    (b : Buffer) (processed : ℕ)
    → IsValid b
    → processed ≤ b.data_len
    → length (sync_all b processed).buf ≡ length b.buf
unfolding sync_all
sync_all-length b processed v h = moved (ltb 0 (b.data_len - processed))
  where
    moved :
        (t : Bool)
        → length (if t then memmove b.buf (b.start + processed) (b.data_len - processed) else b.buf)
          ≡ length b.buf
    moved true =
        length-memmove b.buf (b.start + processed) (b.data_len - processed) (omega (arith, v.fits))
    moved false = refl

pub sync_all-Holds :
    (b : Buffer) (processed : ℕ)
    → IsValid b
    → processed ≤ b.data_len
    → Holds (sync_all b processed) (length b.buf) (drop processed (pending b))
sync_all-Holds b processed v h =
    let l = sync_all-length b processed v h in
    record {
      valid = record { fits = rw l (unfold sync_all in omega (arith, v.fits)) };
      same_size = l;
      bytes_pending = sync_all-pending b processed v h;
    }

-- memcpy behind the data appends to it.
take-memcpy :
    (buf : Bytes) (start n : ℕ) (src : Bytes)
    → start + n + length src ≤ length buf
    → take (n + length src) (drop start (memcpy buf (start + n) src))
      ≡ take n (drop start buf) ++ src
take-memcpy buf start n src h =
    let old = take n (drop start buf) in
    let behind = drop (start + n + length src) buf in
    let front : drop start (take (start + n) buf) ≡ old =
      drop-take start (start + n) buf ∙ ap (λ k. take k (drop start buf)) (omega arith) in
    let l : length old ≡ n =
      length-take n (drop start buf) (omega (arith, length-drop start buf)) in
    let all : length (old ++ src) ≡ n + length src = omega (arith, length-append old src) in
    ap (take (n + length src)) (
      drop-append_le start (take (start + n) buf) (src ++ behind)
        (omega (arith, length-take (start + n) buf (omega arith)))
      ∙ ap (λ x. x ++ (src ++ behind)) front
      ∙ sym (append_assoc old src behind))
    ∙ take-append_le (n + length src) (old ++ src) behind (omega arith)
    ∙ take-length_le (n + length src) (old ++ src) (omega arith)

-- memcpy behind what is looked at changes nothing there.
take-memcpy_behind :
    (buf : Bytes) (start n at : ℕ) (src : Bytes)
    → start + n ≤ at
    → at + length src ≤ length buf
    → take n (drop start (memcpy buf at src)) ≡ take n (drop start buf)
take-memcpy_behind buf start n at src h k =
    let behind = src ++ drop (at + length src) buf in
    ap (take n) (
      drop-append_le start (take at buf) behind (omega (arith, length-take at buf (omega arith)))
      ∙ ap (λ x. x ++ behind) (drop-take start at buf))
    ∙ take-append_le n (take (at - start) (drop start buf)) behind (
        omega
          (arith, length-take (at - start) (drop start buf) (omega (arith, length-drop start buf))))
    ∙ take-take n (at - start) (drop start buf) (omega arith)

-- receive in a valid buffer: all of the bytes that arrived are appended behind the pending ones.
receive_copy-Holds :
    (b : Buffer) (received : Bytes)
    → b.start + b.data_len + length received < length b.buf
    → Holds
        (record b {
          buf =
              memcpy
                (memcpy b.buf (b.start + b.data_len) received)
                (b.start + b.data_len + length received)
                (0 ∷ []);
          data_len = b.data_len + length received;
        })
        (length b.buf)
        (pending b ++ received)
receive_copy-Holds b received h =
    let end = b.start + b.data_len in
    let copied = memcpy b.buf end received in
    let l : length copied ≡ length b.buf = length-memcpy b.buf end received (omega arith) in
    let l' : length (memcpy copied (end + length received) (0 ∷ [])) ≡ length b.buf =
      length-memcpy copied (end + length received) (0 ∷ []) (omega arith) ∙ l in
    record {
      valid = record { fits = rw l' (omega arith) };
      same_size = l';
      bytes_pending =
          take-memcpy_behind copied b.start (b.data_len + length received) (end + length received)
            (0 ∷ []) (omega arith) (omega arith)
          ∙ take-memcpy b.buf b.start b.data_len received (omega arith);
    }

-- What a queue of at most `size` bytes promises of an operation that is to leave `bytes` in it,
-- and that is possible under a condition.
pub data Promise (size : ℕ) (bytes : Bytes) : Bool → Synced → Type 0 where
  kept : (b : Buffer) → Holds b size bytes → Promise size bytes true (no_error b)
  refused : Promise size bytes false error_buffer

pub same-Holds : (b : Buffer) → IsValid b → Holds b (length b.buf) (pending b)
same-Holds b v = record { valid = v; same_size = refl; bytes_pending = refl }

moved-Promise :
    (b : Buffer) (processed : ℕ)
    → IsValid b
    → processed ≤ b.data_len
    → (t : Bool) → (b.start + processed == 0) ≡ t
    → Promise
        (length b.buf)
        (drop processed (pending b))
        true
        (if t then no_error b else no_error (sync_all b processed))
moved-Promise b processed v h true e =
    let none_processed : processed ≡ 0 = ground arith in rw none_processed (kept b (same-Holds b v))
moved-Promise b processed v h false e = kept (sync_all b processed) (sync_all-Holds b processed v h)

-- On a valid buffer sync_server_data drops the processed bytes, all others stay pending in order,
-- and it fails exactly if more bytes are said to be processed than are pending.
pub sync_server_data-Promise :
    (b : Buffer) (processed : ℕ)
    → IsValid b
    → Promise
        (length b.buf)
        (drop processed (pending b))
        (leb processed b.data_len)
        (sync_server_data b processed)
unfolding sync_server_data
sync_server_data-Promise b processed v = guarded (ltb b.data_len processed) refl
  where
    guarded :
        (t : Bool)
        → ltb b.data_len processed ≡ t
        → Promise (length b.buf) (drop processed (pending b)) (leb processed b.data_len) (
            if t
            then error_buffer
            else if b.start + processed == 0
            then no_error b
            else no_error (sync_all b processed))
    guarded true e =
        let too_many : leb processed b.data_len ≡ false = ground arith in rw too_many refused
    guarded false e =
        let enough : leb processed b.data_len ≡ true = ground arith in
        rw enough (moved-Promise b processed v (ground arith) (b.start + processed == 0) refl)

client-server :
    (b : Buffer) (processed : ℕ)
    → IsValid b
    → sync_client_data b processed ≡ sync_server_data b processed
unfolding sync_client_data sync_server_data
client-server b processed v =
    let start_ok : ltb (length b.buf - 1) b.start ≡ false = ground (arith, v.fits) in
    let len_ok : ltb (length b.buf - 1) b.data_len ≡ false = ground (arith, v.fits) in
    let end_ok : ltb (length b.buf - 1) (b.start + b.data_len) ≡ false = ground (arith, v.fits) in
    rw (start_ok, len_ok, end_ok)

-- On a valid buffer sync_client_data drops the processed bytes, all others stay pending in order,
-- and it fails exactly if more bytes are said to be processed than are pending: its tests of the
-- buffer never fail on a valid one.
pub sync_client_data-Promise :
    (b : Buffer) (processed : ℕ)
    → IsValid b
    → Promise
        (length b.buf)
        (drop processed (pending b))
        (leb processed b.data_len)
        (sync_client_data b processed)
sync_client_data-Promise b processed v =
    rw (client-server b processed v) (sync_server_data-Promise b processed v)

-- A valid buffer accepts bytes exactly if one byte of the array is left behind them, and they are
-- appended to the pending ones.
pub receive-Promise :
    (b : Buffer) (received : Bytes)
    → IsValid b
    → Promise
        (length b.buf)
        (pending b ++ received)
        (ltb (b.start + b.data_len + length received) (length b.buf))
        (receive b received)
unfolding receive
receive-Promise b received v =
    guarded (ltb (left_len (length b.buf - 1) (b.start + b.data_len)) (length received)) refl
  where
    guarded :
        (t : Bool)
        → ltb (left_len (length b.buf - 1) (b.start + b.data_len)) (length received) ≡ t
        → Promise
            (length b.buf)
            (pending b ++ received)
            (ltb (b.start + b.data_len + length received) (length b.buf))
            (if t
              then error_buffer
              else no_error (record b {
                buf =
                    memcpy
                      (memcpy b.buf (b.start + b.data_len) received)
                      (b.start + b.data_len + length received)
                      (0 ∷ []);
                data_len = b.data_len + length received;
              }))
    guarded true e =
        let full : ltb (b.start + b.data_len + length received) (length b.buf) ≡ false =
          ground (arith, v.fits) in
        rw full refused
    guarded false e =
        let room : b.start + b.data_len + length received < length b.buf = ground (arith, v.fits) in
        let fits : ltb (b.start + b.data_len + length received) (length b.buf) ≡ true =
          ground arith in
        rw fits (kept _ (receive_copy-Holds b received room))
