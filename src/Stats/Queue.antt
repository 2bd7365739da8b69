-- ===== src/Stats/Queue.antt =====
-- `write_queue_stats` of `ctfuzz/afl/afl-fuzz-stats.c`, of the builds with `INTROSPECTION`.
pub mod Csv
mod Tests
use ctfuzz.Base.{ℕ, zero, suc, ◌+◌, Option, some, none, List, [], ◌∷◌, ◌++◌, get_elem?}
use ctfuzz.Base.Text.{codes}
use ctfuzz.State.{Text, Result, ok, stop, in_bounds, ◌>>=◌}

-- A `struct queue_entry`, with the doubles of `perf_score` and `weight`.
pub record Entry (F : Type 0) : Type 0 where
  pub fname : Text
  pub len : ℕ
  pub exec_us : ℕ
  pub stats_selected : ℕ
  pub stats_skipped : ℕ
  pub stats_mutated : ℕ
  pub stats_finds : ℕ
  pub stats_crashes : ℕ
  pub stats_tmouts : ℕ
  pub bitmap_size : ℕ
  pub perf_score : F
  pub weight : F
  pub colorized : ℕ
  pub favored : ℕ
  pub disabled : ℕ

-- `%u` and `%llu`, and `%.3f`.
pub record Formats (F : Type 0) : Type 0 where
  pub decimal : ℕ → Text
  pub fixed3 : F → Text

-- The head of the file, without its newline.
abbrev pub head_line : Text
head_line =
    codes "# filename, length, exec_us, selected, skipped, mutations, finds, "
    ++ (codes "crashes, timeouts, bitmap_size, perf_score, weight, colorized, "
        ++ codes "favored, disabled")

abbrev pub comma : Text
comma = codes ","

-- The line of an entry, without its newline.
unfoldable pub entry_line : {F : Type 0} → Formats F → Entry F → Text
entry_line fmt q =
    codes "\""
    ++ (q.fname
        ++ (codes "\""
            ++ (comma
                ++ (fmt.decimal q.len
                    ++ (comma
                        ++ (fmt.decimal q.exec_us
                            ++ (comma
                                ++ (fmt.decimal q.stats_selected
                                    ++ (comma
                                        ++ (fmt.decimal q.stats_skipped
                                            ++ (comma
                                                ++ (fmt.decimal q.stats_mutated
                                                    ++ (comma
                                                        ++ (fmt.decimal q.stats_finds
                                                            ++ (comma
                                                            ++ (fmt.decimal q.stats_crashes
                                                            ++ (comma
                                                            ++ (fmt.decimal q.stats_tmouts
                                                            ++ (comma
                                                            ++ (fmt.decimal q.bitmap_size
                                                            ++ (comma
                                                            ++ (fmt.fixed3 q.perf_score
                                                            ++ (comma
                                                            ++ (fmt.fixed3 q.weight
                                                            ++ (comma
                                                            ++ (fmt.decimal q.colorized
                                                            ++ (comma
                                                            ++ (fmt.decimal q.favored
                                                            ++ (comma
                                                            ++ fmt.decimal
                                                            q.disabled)))))))))))))))))))))))))))))

-- The loop, with `left` rounds to go.
unfoldable pub entry_lines : {F : Type 0} → Formats F → ℕ → ℕ → List (Entry F) → Result (List Text)
entry_lines fmt zero id queue_buf = ok []
entry_lines fmt (suc left) id queue_buf = do
  q ← in_bounds (get_elem? queue_buf id)
  rest ← entry_lines fmt left (id + 1) queue_buf
  ok (entry_line fmt q ∷ rest)

-- The lines of the file `queue_data`, each with a newline behind it.
unfoldable pub write_queue_stats :
    {F : Type 0} → Formats F → ℕ → List (Entry F) → Result (List Text)
write_queue_stats fmt queued_items queue_buf = do
  lines ← entry_lines fmt queued_items 0 queue_buf
  ok (head_line ∷ lines)
