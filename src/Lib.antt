-- ===== src/Lib.antt =====
-- CTFuzz: the core of its fuzzer.
--
-- The fuzzer is a fork of afl-fuzz (AFL++). A target runs once per test case and leaves a trace, a
-- map of hit counts. `save_if_interesting` of `ctfuzz/afl/afl-fuzz-bitmap.c` judges the run: it
-- counts the path that the run took (a list of hashes that CTFuzz adds to AFL++), asks `has_new_bits`
-- whether the trace holds something that the virgin maps do not know, and queues the test case or
-- saves it as a crash or a hang. `ctfuzz/afl/afl-fuzz-stats.c` writes what the session has reached
-- into files, one of which a resumed session reads.
--
-- Where the parts stand:
--
-- Base: list, number, text and bit lemmas; nothing of it is about the program.
-- State: the part of `afl_state_t` (`ctfuzz/afl/afl-fuzz.h`) that the other modules use, and how a
--   call ends. A `FATAL` ends the process, and an access out of bounds has no meaning in C: both are
--   values of `Stop`.
-- Bitmap.Count: `count_bits`, `count_bytes` and `count_non_255_bytes` of
--   `ctfuzz/afl/afl-fuzz-bitmap.c`, over the map as `u32` words with their wrap-around.
-- Bitmap.Classes: the tables `simplify_lookup` and `count_class_lookup8`, and `init_count_class16`.
-- Bitmap.Novelty: `has_new_bits`, `has_new_bits_unclassified` and `minimize_bits`, in the build with
--   64-bit words. The state goes in and comes out; the map is named by `VirginMap`. Bitmap.Minimize
--   looks at the single bits that `minimize_bits` sets.
-- Save.Path, Save.Describe, Save.Queue, Save.Judge: `save_if_interesting`, in the order of its text:
--   the unique paths, `describe_op`, the block `save_to_queue`, and the `switch` on the fault with
--   `keep_as_crash`. Its `goto`s are calls.
-- Stats.Write, Stats.Load, Stats.Resume: `write_stats_file` and `load_stats_file` of
--   `ctfuzz/afl/afl-fuzz-stats.c`, and the file between two sessions.
-- Stats.Setup: `write_setup_file`. Stats.Plot: `maybe_update_plot_file`, and Stats.Plot.Session the lines
--   that a session writes with it. Stats.Queue: `write_queue_stats`.
-- Stats.Screen: what `show_stats_normal` does before it draws: the limits of the session, the average
--   speed, which files are due, and the reasons to stop. Stats.Screen.Pizza: the same of
--   `show_stats_pizza`, with `show_stats`, which chooses between them, and `check_term_size`.
-- Stats.Draw: what both screens print beneath the banner. A row is a list of pieces, as the arguments
--   of `SAYF` are: Stats.Draw.Normal and Stats.Draw.Pizza hold the rows, Stats.Draw.Cells and
--   Stats.Draw.Yields the texts of their fields, Stats.Draw.Tty decides whether a screen is drawn, and
--   Stats.Draw.Widths and Stats.Draw.Layout measure the rows.
-- Stats.Banner: the banner that both screens draw, with the buffer of 128 bytes that it stands in.
-- Stats.Init: `show_init_stats`, with the loop over the seeds, the warnings and the timeouts.
-- Bitmap.File: `write_bitmap`, and a step relation of the calls that touch the map and its file.
-- Environ: `read_afl_environment` of `ctfuzz/afl/afl-fuzz-state.c`. Its chain of comparisons is a list
--   of rules, which Environ.Read searches as the chain does.
-- States: the functions of `ctfuzz/afl/afl-fuzz-state.c` on the list of all states, and the buffers
--   of `afl_state_init` and `afl_state_deinit`. States.Init is the state that `afl_state_init`
--   leaves, from which Save.Path.Campaign follows the unique paths.
-- Server: one round of `run` of `ctfuzz/afl/ex-frsv.c`, the server that runs the target for the
--   client `ctfuzz/coverage/coverage.py`: the request in the shared memory, the run, the answer.
--   Server.Session is the loop around it, Server.Args the options of `main`, and Server.Start what
--   `main` prepares between the two: the map size and the coverage map. Server.Start.Collects goes
--   the whole way, from the options to the answers. Server.Prepare is what `main` makes of the
--   environment: `set_up_environment`, the crash exit code and the timeout of the start. Server.Protocol
--   puts the client and the server side by side, two processes over the shared memory and its
--   semaphores, whose steps come in any order. Server.Shutdown is how the server ends: the handlers
--   of its signals, and what they release.
-- Random: the inline routines of `ctfuzz/afl/afl-fuzz.h`: `rand_below`, `rand_below_datalen`,
--   `rand_get_seed` and `next_p2`.
--
-- Numbers are natural numbers, with the wrap of the C type written out where the code computes with
-- it. Loops are recursion on the number of rounds that are left, or take fuel. The way back from a
-- timeout to the queue needs as much as the sum of the bytes of `virgin_tmout`, which each round makes
-- smaller (`Save.Judge.Fuel`); the loop of `rand_below` as many rounds as the generator can stay
-- biased (`Random.Fair`); and `next_p2` 64 rounds (`Random.Power`).
--
-- What the repository does not hold is a parameter: the word functions of `coverage-64.h`
-- (`Coverage`, with the law `IsCoverage`), the functions of AFL++, of the C library and of the system
-- that `save_if_interesting` calls (`Save.Env`, with the law `IsEnv`), the number formats of `printf`
-- and `strtoull`, `sscanf`, `atoi`, `strtol`, the doubles, the generator of random numbers,
-- `get_afl_env` and `find_afl_binary`, the colours and the version, and the tables of names of
-- `envs.h`. The samples of the tests show that the laws can hold.
--
-- Not modelled: the builds with `SIMPLE_FILES`, Nyx and 32-bit words; of the builds with
-- `INTROSPECTION`, all but `write_queue_stats`; paths longer than `PATH_MAX`; failures of writes to
-- open files and of `malloc`, which end the process; the fields that `afl_state_init` of
-- `ctfuzz/afl/afl-fuzz-state.c` sets for the mutations; the target's arguments of
-- `ctfuzz/afl/ex-frsv.c`; the Python environments.
pub mod Base
pub mod State
pub mod Bitmap
pub mod Stats
pub mod Save
pub mod Server
pub mod Environ
pub mod States
pub mod Random
