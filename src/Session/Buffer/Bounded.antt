-- ===== src/Session/Buffer/Bounded.antt =====
-- The buffer as the rest of the program sees it: a queue of bytes of a fixed capacity, in which
-- neither the place of the data nor the bytes around it matter.
use smtp_nel_filter.Prelude.{
  Bool, true, false, if◌then◌else◌, ltb, leb, ℕ, ◌+◌, ◌≡◌, refl, ◌∙◌, sym, ap, arith, List, Bytes,
  [], ◌∷◌, ◌++◌, length, drop,
}
use smtp_nel_filter.Prelude.Slices.{length-take, length-drop}
use smtp_nel_filter.Session.Buffer.{
  Buffer, Synced, no_error, error_buffer, sync_all, sync_client_data, reset_buf, receive,
}
use smtp_nel_filter.Session.Buffer.Queue.{
  pending, Holds, Promise, kept, refused, sync_client_data-Promise, same-Holds, receive-Promise,
}

-- What is done to cli_buf: process_smtp receives bytes, a parser reports how many it processed, or
-- gives up all of them.
pub data Event : Type 0 where
  arrived : Bytes → Event
  processed : ℕ → Event
  gave_up : Event

abbrev pub operate : Buffer → Event → Synced
operate b (arrived bytes) = receive b bytes
operate b (processed n) = sync_client_data b n
operate b gave_up = no_error (reset_buf b)

-- An operation that fails leaves the buffer alone.
abbrev pub after : Buffer → Synced → Buffer
after b (no_error b') = b'
after b error_buffer = b

unfoldable pub run : Buffer → List Event → Buffer
run b [] = b
run b (e ∷ es) = run (after b (operate b e)) es

-- The abstract queue: the same operations on the pending bytes alone.
abbrev pub queue_operate : ℕ → Bytes → Event → Bytes
queue_operate capacity queue (arrived bytes) =
    if leb (length queue + length bytes) capacity then queue ++ bytes else queue
queue_operate capacity queue (processed n) = if leb n (length queue) then drop n queue else queue
queue_operate capacity queue gave_up = []

unfoldable pub queue_run : ℕ → Bytes → List Event → Bytes
queue_run capacity queue [] = queue
queue_run capacity queue (e ∷ es) = queue_run capacity (queue_operate capacity queue e) es

-- A valid buffer whose data starts at the front of an array of `capacity` bytes and one more.
pub record Refines (capacity : ℕ) (queue : Bytes) (b : Buffer) : Type 0 where
  pub holds : Holds b (capacity + 1) queue
  pub at_front : b.start ≡ 0

promised :
    (size : ℕ) (bytes queue : Bytes) (b : Buffer) (t : Bool) (s : Synced)
    → Promise size bytes t s
    → Holds b size queue
    → Holds (after b s) size (if t then bytes else queue)
promised size bytes queue b true s (kept b' holds) h = holds
promised size bytes queue b false s refused h = h

receive-at_front :
    (b : Buffer) (bytes : Bytes) → b.start ≡ 0 → (after b (receive b bytes)).start ≡ 0
unfolding receive
receive-at_front b bytes e = ground arith

sync-at_front : (b : Buffer) (n : ℕ) → b.start ≡ 0 → (after b (sync_client_data b n)).start ≡ 0
unfolding sync_client_data sync_all
sync-at_front b n e = ground arith

Refines-length :
    (capacity : ℕ) (queue : Bytes) (b : Buffer)
    → Refines capacity queue b
    → length queue ≡ b.data_len
Refines-length capacity queue b r =
    sym (ap length r.holds.bytes_pending)
    ∙ length-take b.data_len (drop b.start b.buf)
        (omega (arith, length-drop b.start b.buf, r.holds.valid.fits))

operate-Refines :
    (capacity : ℕ) (queue : Bytes) (b : Buffer) (e : Event)
    → Refines capacity queue b
    → Refines capacity (queue_operate capacity queue e) (after b (operate b e))
unfolding reset_buf
operate-Refines capacity queue b (arrived bytes) r =
    let l = Refines-length capacity queue b r in
    let room : leb (length queue + length bytes) capacity
        ≡ ltb (b.start + b.data_len + length bytes) (length b.buf) =
      ground (arith, r.at_front, r.holds.same_size) in
    record {
      holds =
          rw (room, sym r.holds.bytes_pending, sym r.holds.same_size)
            (promised (length b.buf) (pending b ++ bytes) (pending b) b
              (ltb (b.start + b.data_len + length bytes) (length b.buf)) (receive b bytes)
              (receive-Promise b bytes r.holds.valid) (same-Holds b r.holds.valid));
      at_front = receive-at_front b bytes r.at_front;
    }
operate-Refines capacity queue b (processed n) r =
    let l = Refines-length capacity queue b r in
    record {
      holds =
          rw (l, sym r.holds.bytes_pending, sym r.holds.same_size)
            (promised (length b.buf) (drop n (pending b)) (pending b) b (leb n b.data_len)
              (sync_client_data b n) (sync_client_data-Promise b n r.holds.valid)
              (same-Holds b r.holds.valid));
      at_front = sync-at_front b n r.at_front;
    }
operate-Refines capacity queue b gave_up r = record {
  holds = record {
    valid = record { fits = omega (arith, r.holds.same_size) };
    same_size = r.holds.same_size;
    bytes_pending = refl;
  };
  at_front = refl;
}

-- Whatever is done, in whatever order, to a buffer that holds what a queue of its capacity holds,
-- with the data at the front of the array, is done to the queue, and both of that stays so.
pub run-Refines :
    (capacity : ℕ) (queue : Bytes) (b : Buffer) (es : List Event)
    → Refines capacity queue b
    → Refines capacity (queue_run capacity queue es) (run b es)
unfolding run queue_run
run-Refines capacity queue b [] r = r
run-Refines capacity queue b (e ∷ es) r =
    run-Refines capacity (queue_operate capacity queue e) (after b (operate b e)) es
      (operate-Refines capacity queue b e r)
