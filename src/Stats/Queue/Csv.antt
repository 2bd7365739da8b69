-- ===== src/Stats/Queue/Csv.antt =====
-- What a reader of comma-separated values gets out of the file of `write_queue_stats`.
use ctfuzz.Base.{
  ℕ, zero, suc, ◌+◌, ◌≤◌, ◌≡◌, ◌≢◌, refl, ap, ap₂, ◌∙◌, sym, Bool, true, false, not, ◌&&◌, ◌==◌,
  some, List, [], ◌∷◌, ◌++◌, All, map, take, length, get_elem?, if◌then◌else◌, arith,
}
use mathlib.Core.List.{append_assoc, append-nil}
use ctfuzz.Base.Text.{codes}
use ctfuzz.State.{Text, ok, in_bounds, ◌>>=◌}
use ctfuzz.Stats.Queue.{Entry, Formats, head_line, entry_line, entry_lines, write_queue_stats}

pub data Sort : Type 0 where
  quote separator plain : Sort

abbrev pub sort_of : Bool → ℕ → Sort
sort_of quoted c = if c == 34 then quote else if c == 44 && not quoted then separator else plain

-- The cells of a line, for the part of a cell that is read: a comma between quotes ends no cell.
pub cells_from : Bool → Text → Text → List Text
cells_from quoted cell [] = cell ∷ []
cells_from quoted cell (c ∷ cs) = elim (sort_of quoted c) [
  | quote ↦ cells_from (not quoted) cell cs
  | separator ↦ cell ∷ cells_from quoted [] cs
  | plain ↦ cells_from quoted (cell ++ c ∷ []) cs
]

abbrev pub cells : Text → List Text
cells line = cells_from false [] line

-- A text with neither comma nor quote, and one with no quote.
abbrev pub IsBare : Text → Type 0
IsBare = All (λ c. (c ≢ 34) × (c ≢ 44))

abbrev pub IsUnquoted : Text → Type 0
IsUnquoted = All (λ c. c ≢ 34)

bare-plain : (c : ℕ) → c ≢ 34 → c ≢ 44 → sort_of false c ≡ plain
bare-plain c q s = ground (arith, q, s)

unquoted-plain : (c : ℕ) → c ≢ 34 → sort_of true c ≡ plain
unquoted-plain c q = ground (arith, q)

plain_step :
    (quoted : Bool) (cell cs : Text) (c : ℕ)
    → sort_of quoted c ≡ plain
    → cells_from quoted cell (c ∷ cs) ≡ cells_from quoted (cell ++ c ∷ []) cs
unfolding cells_from
plain_step quoted cell cs c e =
    ap
      (λ k. elim k [
        | quote ↦ cells_from (not quoted) cell cs
        | separator ↦ cell ∷ cells_from quoted [] cs
        | plain ↦ cells_from quoted (cell ++ c ∷ []) cs
      ])
      e

cells_from-bare :
    (t cell rest : Text)
    → IsBare t
    → cells_from false cell (t ++ rest) ≡ cells_from false (cell ++ t) rest
unfolding cells_from
cells_from-bare [] cell rest h = ap (λ u. cells_from false u rest) (sym (append-nil cell))
cells_from-bare (c ∷ cs) cell rest ((q, s), h) =
    plain_step false cell (cs ++ rest) c (bare-plain c q s)
    ∙ cells_from-bare cs (cell ++ c ∷ []) rest h
    ∙ ap (λ u. cells_from false u rest) (append_assoc cell (c ∷ []) cs)

cells_from-unquoted :
    (t cell rest : Text)
    → IsUnquoted t
    → cells_from true cell (t ++ rest) ≡ cells_from true (cell ++ t) rest
unfolding cells_from
cells_from-unquoted [] cell rest h = ap (λ u. cells_from true u rest) (sym (append-nil cell))
cells_from-unquoted (c ∷ cs) cell rest (q, h) =
    plain_step true cell (cs ++ rest) c (unquoted-plain c q)
    ∙ cells_from-unquoted cs (cell ++ c ∷ []) rest h
    ∙ ap (λ u. cells_from true u rest) (append_assoc cell (c ∷ []) cs)

-- One cell and its comma.
bare_cell : (t rest : Text) → IsBare t → cells (t ++ (codes "," ++ rest)) ≡ t ∷ cells rest
unfolding cells_from
bare_cell t rest h = cells_from-bare t [] (codes "," ++ rest) h

last_cell : (t : Text) → IsBare t → cells t ≡ t ∷ []
unfolding cells_from
last_cell t h = ap cells (sym (append-nil t)) ∙ cells_from-bare t [] [] h

quoted_cell :
    (t rest : Text)
    → IsUnquoted t
    → cells (codes "\"" ++ (t ++ (codes "\"" ++ (codes "," ++ rest)))) ≡ t ∷ cells rest
unfolding cells_from
quoted_cell t rest h = cells_from-unquoted t [] (codes "\"" ++ (codes "," ++ rest)) h

-- The values of an entry as they are printed.
abbrev pub values : {F : Type 0} → Formats F → Entry F → List Text
values fmt q =
    q.fname
    ∷ fmt.decimal q.len
    ∷ fmt.decimal q.exec_us
    ∷ fmt.decimal q.stats_selected
    ∷ fmt.decimal q.stats_skipped
    ∷ fmt.decimal q.stats_mutated
    ∷ fmt.decimal q.stats_finds
    ∷ fmt.decimal q.stats_crashes
    ∷ fmt.decimal q.stats_tmouts
    ∷ fmt.decimal q.bitmap_size
    ∷ fmt.fixed3 q.perf_score
    ∷ fmt.fixed3 q.weight
    ∷ fmt.decimal q.colorized
    ∷ fmt.decimal q.favored
    ∷ fmt.decimal q.disabled
    ∷ []

-- Numbers are printed without commas and quotes.
pub record AreBare {F : Type 0} (fmt : Formats F) : Type 0 where
  pub decimals : (n : ℕ) → IsBare (fmt.decimal n)
  pub fixed : (x : F) → IsBare (fmt.fixed3 x)

one_more :
    (t rest : Text) (l : List Text)
    → IsBare t
    → cells rest ≡ l
    → cells (t ++ (codes "," ++ rest)) ≡ t ∷ l
one_more t rest l h e = bare_cell t rest h ∙ ap (λ m. t ∷ m) e

cells-entry_line :
    {F : Type 0} (fmt : Formats F) (q : Entry F)
    → AreBare fmt
    → IsUnquoted q.fname
    → cells (entry_line fmt q) ≡ values fmt q
unfolding entry_line
cells-entry_line fmt q bare name =
    let d = bare.decimals in
    quoted_cell q.fname _ name
    ∙ ap (λ l. q.fname ∷ l)
        (one_more (fmt.decimal q.len) _ _ (d q.len) (
          one_more (fmt.decimal q.exec_us) _ _ (d q.exec_us) (
            one_more (fmt.decimal q.stats_selected) _ _ (d q.stats_selected) (
              one_more (fmt.decimal q.stats_skipped) _ _ (d q.stats_skipped) (
                one_more (fmt.decimal q.stats_mutated) _ _ (d q.stats_mutated) (
                  one_more (fmt.decimal q.stats_finds) _ _ (d q.stats_finds) (
                    one_more (fmt.decimal q.stats_crashes) _ _ (d q.stats_crashes) (
                      one_more (fmt.decimal q.stats_tmouts) _ _ (d q.stats_tmouts) (
                        one_more (fmt.decimal q.bitmap_size) _ _ (d q.bitmap_size) (
                          one_more (fmt.fixed3 q.perf_score) _ _ (bare.fixed q.perf_score) (
                            one_more (fmt.fixed3 q.weight) _ _ (bare.fixed q.weight) (
                              one_more (fmt.decimal q.colorized) _ _ (d q.colorized) (
                                one_more (fmt.decimal q.favored) _ _ (d q.favored)
                                  (last_cell (fmt.decimal q.disabled) (d q.disabled)))))))))))))))

get_elem?-length :
    {F : Type 0} (pre : List (Entry F)) (q : Entry F) (qs : List (Entry F))
    → get_elem? (pre ++ q ∷ qs) (length pre) ≡ some q
get_elem?-length [] q qs = refl
get_elem?-length (p ∷ pre) q qs = get_elem?-length pre q qs

length-snoc :
    {F : Type 0} (pre : List (Entry F)) (q : Entry F) → length (pre ++ q ∷ []) ≡ length pre + 1
length-snoc [] q = refl
length-snoc (p ∷ pre) q = let e = length-snoc pre q in omega arith

-- The rest of the queue, with the entry just printed counted to what lies before it.
entry_lines-next :
    {F : Type 0} (fmt : Formats F) (left : ℕ) (pre : List (Entry F)) (q : Entry F)
    (qs : List (Entry F)) (lines : List Text)
    → entry_lines fmt left (length (pre ++ q ∷ [])) ((pre ++ q ∷ []) ++ qs) ≡ ok lines
    → entry_lines fmt left (length pre + 1) (pre ++ q ∷ qs) ≡ ok lines
entry_lines-next fmt left pre q qs lines e =
    ap₂ (entry_lines fmt left) (sym (length-snoc pre q)) (sym (append_assoc pre (q ∷ []) qs)) ∙ e

-- The lines of the entries from an index on.
entry_lines-cells :
    {F : Type 0} (fmt : Formats F) (left : ℕ) (pre queue_buf : List (Entry F))
    → AreBare fmt
    → left ≤ length queue_buf
    → All (λ q. IsUnquoted q.fname) queue_buf
    → (lines : List Text) × (entry_lines fmt left (length pre) (pre ++ queue_buf) ≡ ok lines)
      × (map cells lines ≡ map (values fmt) (take left queue_buf))
unfolding entry_lines
entry_lines-cells fmt zero pre queue_buf bare h names = ([], refl, refl)
entry_lines-cells fmt (suc left) pre [] bare h names = absurd (omega arith)
entry_lines-cells fmt (suc left) pre (q ∷ qs) bare h (name, names) =
    let (lines, e, same) = entry_lines-cells fmt left (pre ++ q ∷ []) qs bare (omega arith) names in
    (
      entry_line fmt q ∷ lines,
      (ap
            (λ o. in_bounds o >>= (λ q'.
              entry_lines fmt left (length pre + 1) (pre ++ q ∷ qs)
              >>= (λ rest. ok (entry_line fmt q' ∷ rest))))
            (get_elem?-length pre q qs)
          ∙ ap (λ r. r >>= (λ rest. ok (entry_line fmt q ∷ rest)))
              (entry_lines-next fmt left pre q qs lines e)),
      ap₂ (λ x l. x ∷ l) (cells-entry_line fmt q bare name) same,
    )

-- Where numbers are printed with neither commas nor quotes, and over a queue whose entries are all
-- in memory and whose names hold no quote, the file is written, and a reader of comma-separated
-- values gets back from its lines, behind the head, the fifteen values of each entry, in the order
-- of the queue, whatever commas the names hold.
pub write_queue_stats-cells :
    {F : Type 0} (fmt : Formats F) (queued_items : ℕ) (queue_buf : List (Entry F))
    → AreBare fmt
    → queued_items ≤ length queue_buf
    → All (λ q. IsUnquoted q.fname) queue_buf
    → (lines : List Text) × (write_queue_stats fmt queued_items queue_buf ≡ ok (head_line ∷ lines))
      × (map cells lines ≡ map (values fmt) (take queued_items queue_buf))
unfolding write_queue_stats
write_queue_stats-cells fmt queued_items queue_buf bare h names =
    let (lines, e, same) = entry_lines-cells fmt queued_items [] queue_buf bare h names in
    (lines, ap (λ r. r >>= (λ l. ok (head_line ∷ l))) e, same)
