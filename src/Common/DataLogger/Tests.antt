-- ===== src/Common/DataLogger/Tests.antt =====
-- A logger with two columns and rows of two and of one value.
use cubesat_fsw_gnc.Fixed.{
  fixed_double, fixed_eigen, fixed_libm, fixed_matrices, fixed_stored, fixed_reductions,
}
use cubesat_fsw_gnc.Prelude.{ℕ, ◌≡◌, refl, List, [], ◌∷◌, ◌==◌, if◌then◌else◌}
use cubesat_fsw_gnc.Common.DataLogger.Tables.{
  call_all-init, Call, column, header, start, add, finish, call, call_all, add_columns,
}
use cubesat_fsw_gnc.Common.DataLogger.Lines.{IsLog}
use Prim.Native.String.{String}
use cubesat_fsw_gnc.Common.DataLogger.{
  DataLogger, init, start_row, end_row, add_value, flush, count_row, write_row, write_header,
  add_column,
}

abbrev show : ℕ → String
show n = if n == 1 then "1" else "2"

abbrev two_columns : DataLogger
two_columns = record (init "out.csv") { columns = "time" ∷ "rate" ∷ [] }

-- A row that is written, one that throws, a new column, and a second header.
abbrev calls : List (Call ℕ)
calls =
    start ∷ add 1 ∷ finish ∷ start ∷ add 1 ∷ add 2 ∷ finish ∷ column "rate" ∷ header ∷ finish ∷ []

call_all-init_example :
    IsLog 1 2 2 (call_all show (write_header (add_columns (init "out.csv") ("time" ∷ []))) calls)
call_all-init_example = call_all-init show "out.csv" ("time" ∷ []) calls

call_all-rows :
    (call_all show
      (write_header (add_columns (init "out.csv") ("time" ∷ [])))
      (start ∷ add 1 ∷ add 2 ∷ finish ∷ start ∷ add 1 ∷ finish ∷ [])).file
    ≡ ("time" ∷ []) ∷ ("1" ∷ []) ∷ []
unfolding call_all call start_row add_value end_row write_row write_header add_columns add_column
    init count_row flush
call_all-rows = refl
