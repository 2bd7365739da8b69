-- ===== src/Stats/Write.antt =====
-- `write_stats_file` of `ctfuzz/afl/afl-fuzz-stats.c`. The file is the list of its lines, each with
-- its newline.
use ctfuzz.Base.{
  ℕ, zero, suc, ◌+◌, ◌-◌, ◌*◌, ◌/◌, ◌%◌, ◌^◌, Bool, ◌&&◌, ◌||◌, List, [], ◌∷◌, ◌++◌, ◌==◌, leb,
  if◌then◌else◌,
}
use ctfuzz.Base.Text.{codes}
use ctfuzz.State.{Text}
use ctfuzz.Stats.File.{Formats, Doubles, Stats, Averages, System, sub64, newline}

abbrev flag : Bool → Text → Text
flag b name = if b then name else []

abbrev target_mode : Stats → Text
target_mode s =
    flag s.unicorn_mode (codes "unicorn")
    ++ flag s.qemu_mode (codes "qemu ")
    ++ flag s.cs_mode (codes "coresight")
    ++ flag s.non_instrumented_mode (codes " non_instrumented ")
    ++ flag s.no_forkserver (codes "no_fsrv ")
    ++ flag s.crash_mode (codes "crash ")
    ++ flag s.persistent_mode (codes "persistent ")
    ++ flag s.shmem_testcase_mode (codes "shmem_testcase ")
    ++ flag s.deferred_mode (codes "deferred ")
    ++ (if s.unicorn_mode || s.qemu_mode || s.cs_mode || s.non_instrumented_mode || s.no_forkserver
          || s.crash_mode || s.persistent_mode || s.deferred_mode
        then []
        else codes "default")

module _ (fmt : Formats) where
  abbrev entry : Text → Text → Text
  entry key value = key ++ (58 ∷ 32 ∷ (value ++ newline))

  abbrev number : Text → ℕ → Text
  number key n = entry key (fmt.decimal n)

  -- The bytes of a map that differ from a value, as ` %u[%02x]`.
  abbrev virgin_list : ℕ → ℕ → List ℕ → Text
  virgin_list zero i mem = []
  virgin_list (suc left) i [] = []
  virgin_list (suc left) i (b ∷ mem) =
      (if b == 255 then [] else 32 ∷ (fmt.decimal i ++ 91 ∷ (fmt.hex2 b ++ 93 ∷ [])))
      ++ virgin_list left (i + 1) mem

  abbrev var_list : ℕ → ℕ → List ℕ → Text
  var_list zero i mem = []
  var_list (suc left) i [] = []
  var_list (suc left) i (b ∷ mem) =
      (if b == 0 then [] else 32 ∷ fmt.decimal i) ++ var_list left (i + 1) mem

  abbrev debug_lines : Stats → List Text
  debug_lines s =
      if s.debug
      then (codes "virgin_bytes     :" ++ (virgin_list s.real_map_size 0 s.virgin_bits ++ newline))
        ∷ (codes "var_bytes        :" ++ (var_list s.real_map_size 0 s.var_bytes ++ newline))
        ∷ []
      else []

  module _ {F : Type 0} (dbl : Doubles F) where
    -- `if (!bitmap_cvg && !stability && !eps)`, and the once-a-minute average.
    abbrev keep_given : F → F → F → Averages F → Averages F
    keep_given bitmap_cvg stability eps a =
        if dbl.is_zero bitmap_cvg && dbl.is_zero stability && dbl.is_zero eps
        then a
        else record a { last_bitmap_cvg = bitmap_cvg; last_stability = stability; last_eps = eps }

    abbrev keep_minute : Stats → System → Averages F → Averages F
    keep_minute s sys a =
        if a.last_avg_exec_update == 0 || leb 60000 (sub64 sys.cur_time a.last_avg_exec_update)
        then record a {
          last_avg_execs_saved =
              dbl.quotient (1000 * sub64 s.total_execs a.last_avg_execs % 2 ^ 64)
                (sub64 sys.cur_time a.last_avg_exec_update);
          last_avg_execs = s.total_execs % 2 ^ 32;
          last_avg_exec_update = sys.cur_time;
        }
        else a

    -- The averages that are left, which are also the coverage and stability that are printed.
    unfoldable pub averages : Stats → System → F → F → F → Averages F → Averages F
    averages s sys bitmap_cvg stability eps a =
        keep_minute s sys (keep_given bitmap_cvg stability eps a)

    -- The lines of the file, in order.
    unfoldable pub stats_lines : Stats → System → ℕ → Averages F → List Text
    stats_lines s sys t_bytes a =
        number (codes "start_time        ") (sub64 s.start_time s.prev_run_time / 1000)
        ∷ number (codes "last_update       ") (sys.cur_time / 1000)
        ∷ number (codes "run_time          ")
            (sub64 (s.prev_run_time + sys.cur_time) s.start_time / 1000)
        ∷ number (codes "fuzzer_pid        ") sys.pid
        ∷ number (codes "cycles_done       ") (if s.queue_cycle == 0 then 0 else s.queue_cycle - 1)
        ∷ number (codes "cycles_wo_finds   ") s.cycles_wo_finds
        ∷ number (codes "execs_done        ") s.total_execs
        ∷ entry (codes "execs_per_sec     ") (
            dbl.show
              (dbl.per_second s.total_execs (sub64 (s.prev_run_time + sys.cur_time) s.start_time)))
        ∷ entry (codes "execs_ps_last_min ") (dbl.show a.last_avg_execs_saved)
        ∷ number (codes "unique_path       ") s.total_unique_path
        ∷ number (codes "corpus_count      ") s.queued_items
        ∷ number (codes "corpus_favored    ") s.queued_favored
        ∷ number (codes "corpus_found      ") s.queued_discovered
        ∷ number (codes "corpus_imported   ") s.queued_imported
        ∷ number (codes "corpus_variable   ") s.queued_variable
        ∷ number (codes "max_depth         ") s.max_depth
        ∷ number (codes "cur_item          ") s.current_entry
        ∷ number (codes "pending_favs      ") s.pending_favored
        ∷ number (codes "pending_total     ") s.pending_not_fuzzed
        ∷ entry (codes "stability         ") (dbl.show a.last_stability ++ 37 ∷ [])
        ∷ entry (codes "bitmap_cvg        ") (dbl.show a.last_bitmap_cvg ++ 37 ∷ [])
        ∷ number (codes "saved_crashes     ") s.saved_crashes
        ∷ number (codes "saved_hangs       ") s.saved_hangs
        ∷ number (codes "last_find         ") (s.last_find_time / 1000)
        ∷ number (codes "last_crash        ") (s.last_crash_time / 1000)
        ∷ number (codes "last_hang         ") (s.last_hang_time / 1000)
        ∷ number (codes "execs_since_crash ") (sub64 s.total_execs s.last_crash_execs)
        ∷ number (codes "exec_timeout      ") s.exec_tmout
        ∷ number (codes "slowest_exec_ms   ") s.slowest_exec_ms
        ∷ number (codes "peak_rss_mb       ") sys.peak_rss_mb
        ∷ entry (codes "cpu_affinity      ") sys.cpu_aff
        ∷ number (codes "edges_found       ") t_bytes
        ∷ number (codes "total_edges       ") s.real_map_size
        ∷ number (codes "var_byte_count    ") s.var_byte_count
        ∷ number (codes "havoc_expansion   ") s.expand_havoc
        ∷ number (codes "auto_dict_entries ") s.a_extras_cnt
        ∷ number (codes "testcache_size    ") s.q_testcase_cache_size
        ∷ number (codes "testcache_count   ") s.q_testcase_cache_count
        ∷ number (codes "testcache_evict   ") s.q_testcase_evictions
        ∷ entry (codes "afl_banner        ") s.use_banner
        ∷ entry (codes "afl_version       ") sys.version
        ∷ entry (codes "target_mode       ") (target_mode s)
        ∷ entry (codes "command_line      ") s.orig_cmdline
        ∷ debug_lines s

    unfoldable pub write_stats_file :
        Stats → System → ℕ → F → F → F → Averages F → List Text × Averages F
    unfolding averages stats_lines
    write_stats_file s sys t_bytes bitmap_cvg stability eps a =
        let a' = averages s sys bitmap_cvg stability eps a in (stats_lines s sys t_bytes a', a')
