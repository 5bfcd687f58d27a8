-- ===== src/Lib.antt =====
-- The io_uring read driver (src/driver.rs), its diagnostics (src/diagnostics.rs) and a client of it.
--
-- The program. A `UringDriver` owns shards, each an io_uring ring with a thread (`drive`). A caller's
-- read is validated and admitted by `submit` (permits for the count of reads and for their bytes), and
-- travels as a message to a shard's thread, which keeps the read's buffer in its table until the
-- kernel's completion, continues short reads, and sends the result over a oneshot channel. The caller
-- holds a `ReadHandle`, whose drop asks for a cancel. A shutdown cancels every read and drains, and a
-- drain that takes too long leaks the buffers instead of freeing them under the kernel.
--
-- The files, and what they model, of src/driver.rs where no other file is named:
--   Geometry      aligned_geometry
--   Pending       Pending, read_sqe, deliver, finish_direct_short_read, reap_read
--   Budget        TurnBudget
--   Driver        the state of `drive`, queue_cancel
--   Driver.Intake the intake phase; Driver.Submit submit_ring and handle_submit_result; Driver.Reap the
--                 reap phase; Driver.Turn the exits, one turn, the loop
--   Admission     try_read_permits, select_read_shard
--   Front         submit, read_at, read_at_direct, read_current, read_at_batch
--   Handle        ReadHandle: poll and drop
--   Reservation   SharedReadBudget, SharedReadReservation
--   Startup       eventfd_transfer, register_iowq_setup, ProbeFailure, validate_read_limits,
--                 drain_probe_cqe
--   Probe         probe_real_read, open_probe_file
--   Start         start_shard, start_with_limits, probe_and_start and its variants
--   Closing       ByteAdmission, request_shutdown, join, shutdown, stats
--   Diagnostics, Trace  src/diagnostics.rs: the histograms, the trace of a sampled read
--   Ordered       OrderedReader of examples/ordered_prefetch/reader.rs, a client of the reads
--   Prefetch      examples/ordered_prefetch/linux.rs: the program that checks OrderedReader
--   Pread         examples/concurrent_pread_bench/linux.rs: the pattern of its file, its
--                 offsets, and the reads of its tasks
--   Sys, Prelude  errors and errnos; lists, maps, machine words and bit masks
-- The children of a file hold its proofs; Tests holds runs at concrete inputs.
--
-- Conventions. The target has 64-bit words; `usize` and `u64` are numbers below 2 ^ 64 with their
-- wrap-around written out, and errnos are Linux's. A hash map is an association list. A oneshot
-- sender is the number of its channel. What the kernel, the allocator, tokio and the clock answer is
-- an argument: a completion brings the buffer as the kernel left it, a turn brings the messages and
-- completions that have arrived. A panic of an `expect` or of an
-- index on the driver's thread aborts the process and is `none`; the range check of `copy_within` in
-- deliver is left out, and its range is cut at the end of the buffer.
-- Time is in milliseconds. An address is an index into the read's buffer.
-- The loops run over the lists of what arrives: no fuel is involved. A logical read needs at most
-- `submissions_left` completions, which Pending.Whole counts: each either makes progress or takes one
-- of the 16 retries.
--
-- Not modelled: the feature fault-injection, logging, system calls themselves, thread creation, the
-- command line and the opening of the file in examples/ordered_prefetch, the command line, the opens and
-- the statistics of examples/concurrent_pread_bench, and examples/streaming_bench.
pub mod Prelude
pub mod Sys
pub mod Geometry
pub mod Admission
pub mod Pending
pub mod Budget
pub mod Driver
pub mod Closing
pub mod Diagnostics
pub mod Front
pub mod Handle
pub mod Ordered
pub mod Pread
pub mod Prefetch
pub mod Probe
pub mod Reservation
pub mod Start
pub mod Startup
pub mod Trace
pub mod Tests
