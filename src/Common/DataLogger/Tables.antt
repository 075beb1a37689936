-- ===== src/Common/DataLogger/Tables.antt =====
-- src/common/DataLogger.hpp: the lines of the file, their fields and the flushes.
use cubesat_fsw_gnc.Common.DataLogger.Lines.{
  flush-IsLog, end_row-IsLog, add_value-IsLog, start_row-IsLog, column-IsLog, header-IsLog, IsLog,
}
use cubesat_fsw_gnc.Prelude.{ℕ, arith, ◌+◌, ◌≡◌, refl, List, [], ◌∷◌, length, length-append}
use cubesat_fsw_gnc.Common.DataLogger.{
  add_column, init, write_header, flush, end_row, add_value, start_row, DataLogger,
}
use Prim.Native.String.{String}

-- The calls on a logger, by a program that may catch what they throw.
pub data Call (T : Type 0) : Type 0 where
  column : String → Call T
  header : Call T
  start : Call T
  add : T → Call T
  finish : Call T
  sync : Call T

unfoldable pub call : {T : Type 0} → (T → String) → DataLogger → Call T → DataLogger
call format l (column name) = add_column l name
call format l header = write_header l
call format l start = start_row l
call format l (add value) = (add_value format l value).0
call format l finish = (end_row l).0
call format l sync = flush l

unfoldable pub call_all : {T : Type 0} → (T → String) → DataLogger → List (Call T) → DataLogger
unfolding call
call_all format l [] = l
call_all format l (c ∷ cs) = call_all format (call format l c) cs

-- The columns and the headers that calls add.
abbrev pub columns_of : {T : Type 0} → Call T → ℕ
columns_of (column name) = 1
columns_of c = 0

abbrev pub headers_of : {T : Type 0} → Call T → ℕ
headers_of header = 1
headers_of c = 0

abbrev pub sum_of : {T : Type 0} → (Call T → ℕ) → List (Call T) → ℕ
sum_of f [] = 0
sum_of f (c ∷ cs) = f c + sum_of f cs

keep-IsLog :
    (low high headers : ℕ) (l : DataLogger)
    → IsLog low high headers l
    → IsLog low (high + 0) (headers + 0) l
keep-IsLog low high headers l h =
    let a : high ≡ high + 0 = omega arith in
    let b : headers ≡ headers + 0 = omega arith in rw (← a, ← b) h

call-IsLog :
    {T : Type 0} (format : T → String) (low high headers : ℕ) (l : DataLogger) (c : Call T)
    → IsLog low high headers l
    → IsLog low (high + columns_of c) (headers + headers_of c) (call format l c)
unfolding call
call-IsLog format low high headers l (column name) h =
    let b : headers ≡ headers + 0 = omega arith in rw (← b) (column-IsLog low high headers l name h)
call-IsLog format low high headers l header h =
    let a : high ≡ high + 0 = omega arith in rw (← a) (header-IsLog low high headers l h)
call-IsLog format low high headers l start h =
    keep-IsLog low high headers (start_row l) (start_row-IsLog low high headers l h)
call-IsLog format low high headers l (add value) h =
    keep-IsLog low high headers (add_value format l value).0
      (add_value-IsLog format low high headers l value h)
call-IsLog format low high headers l finish h =
    keep-IsLog low high headers (end_row l).0 (end_row-IsLog low high headers l h)
call-IsLog format low high headers l sync h =
    keep-IsLog low high headers (flush l) (flush-IsLog low high headers l h)

call_all-IsLog :
    {T : Type 0} (format : T → String) (low high headers high' headers' : ℕ) (l : DataLogger)
    (cs : List (Call T))
    → high + sum_of columns_of cs ≡ high'
    → headers + sum_of headers_of cs ≡ headers'
    → IsLog low high headers l
    → IsLog low high' headers' (call_all format l cs)
unfolding call_all
call_all-IsLog format low high headers high' headers' l [] a b h =
    rw (← a, ← b) (keep-IsLog low high headers l h)
call_all-IsLog format low high headers high' headers' l (c ∷ cs) a b h =
    call_all-IsLog format low (high + columns_of c) (headers + headers_of c) high' headers'
      (call format l c) cs (omega (arith, a)) (omega (arith, b))
      (call-IsLog format low high headers l c h)

-- The columns of a new logger.
unfoldable pub add_columns : DataLogger → List String → DataLogger
add_columns l [] = l
add_columns l (name ∷ names) = add_columns (add_column l name) names

add_columns-init :
    (l : DataLogger) (names : List String) (n : ℕ)
    → l.file ≡ []
    → l.row_count ≡ 0
    → length l.columns + length names ≡ n
    → IsLog n n 0 (add_columns l names)
unfolding add_columns add_column
add_columns-init l [] n e r c = record {
  widths = rw e tt;
  columns_eq = omega (arith, c);
  low_le = omega arith;
  lines_eq = rw (e, r) refl;
  flushes_le = rw r omega arith;
}
add_columns-init l (name ∷ names) n e r c =
    add_columns-init (add_column l name) names n e r
      (omega (arith, length-append l.columns (name ∷ []), c))

-- Whatever calls follow the header of a new logger, further columns and headers included, and
-- whether or not some of them throw: every line of the file has at least as many fields as there
-- were columns at the first header, and at most as many as there are now, which is as many if no
-- column was added. There is one line for each header and each counted row, and at least one flush
-- for each header and for every 100 rows.
pub call_all-init :
    {T : Type 0} (format : T → String) (filename : String) (names : List String)
    (cs : List (Call T))
    → IsLog
        (length names)
        (length names + sum_of columns_of cs)
        (1 + sum_of headers_of cs)
        (call_all format (write_header (add_columns (init filename) names)) cs)
unfolding init
call_all-init format filename names cs =
    let n = length names in
    let l = add_columns (init filename) names in
    call_all-IsLog format n n 1 (n + sum_of columns_of cs) (1 + sum_of headers_of cs)
      (write_header l) cs refl refl
      (header-IsLog n n 0 l (add_columns-init (init filename) names n refl refl (omega arith)))
