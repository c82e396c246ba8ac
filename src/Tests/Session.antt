-- ===== src/Tests/Session.antt =====
-- The buffers of a connection on concrete inputs.
use smtp_nel_filter.Prelude.{true, arith, refl, [], ◌∷◌, List}
use smtp_nel_filter.Session.Buffer.{Buffer, receive}
use smtp_nel_filter.Session.Buffer.Queue.{Promise, receive-Promise}
use smtp_nel_filter.Session.Buffer.Bounded.{
  Event, arrived, processed, Refines, run, queue_run, run-Refines,
}

-- Two bytes at the second place of an array of eight.
abbrev two_bytes : Buffer
two_bytes = record { buf = 9 ∷ 7 ∷ 8 ∷ 9 ∷ 9 ∷ 9 ∷ 9 ∷ 9 ∷ []; start = 1; data_len = 2 }

receive-Promise_example : Promise 8 (7 ∷ 8 ∷ 5 ∷ 6 ∷ []) true (receive two_bytes (5 ∷ 6 ∷ []))
receive-Promise_example = receive-Promise two_bytes (5 ∷ 6 ∷ []) (record { fits = omega arith })

abbrev empty : Buffer
empty = record { buf = 9 ∷ 9 ∷ 9 ∷ 9 ∷ []; start = 0; data_len = 0 }

-- The third event does not fit.
abbrev events : List Event
events = arrived (1 ∷ 2 ∷ []) ∷ processed 1 ∷ arrived (3 ∷ 4 ∷ 5 ∷ []) ∷ arrived (6 ∷ []) ∷ []

run-Refines_example : Refines 3 (2 ∷ 6 ∷ []) (run empty events)
unfolding queue_run
run-Refines_example = run-Refines 3 [] empty events (record {
  holds = record { valid = record { fits = omega arith }; same_size = refl; bytes_pending = refl };
  at_front = refl;
})
