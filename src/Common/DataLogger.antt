-- ===== src/Common/DataLogger.antt =====
-- src/common/DataLogger.hpp: a table written as comma-separated lines. The file is the list of its
-- lines, the header first, each the fields that commas part. The format of a number is a parameter,
-- and the file opens; opening and the buffer of the stream are left out, but for the count of flushes.
pub mod Lines
pub mod Tables
pub mod Rows
mod Tests
use cubesat_fsw_gnc.Prelude.{
  ℕ, arith, ◌+◌, ◌-◌, ◌*◌, ◌/◌, ◌%◌, ◌^◌, ◌≤◌, ◌<◌, min, zero, suc, ◌≡◌, refl, sym, ap, ap₂, ◌∙◌,
  ◌≢◌, ◌↔◌, ◌⊎◌, inl, inr, Bool, true, false, not, ◌&&◌, ◌||◌, Option, none, some, List, [], ◌∷◌,
  ◌++◌, map, length, get_elem?, set, get_or, take, drop, replicate, ltb, leb, ◌==◌, if◌then◌else◌,
  Bool-cases, Option-cases,
}
use Prim.Native.String.{String}

pub record DataLogger : Type 0 where
  pub filename : String
  pub file : List (List String)
  pub columns : List String
  pub current_row : List String
  pub row_started : Bool
  pub row_count : ℕ
  pub flushes : ℕ

-- What a method throws, with the texts of `std::runtime_error`; a mismatch names both sizes.
pub data LogError : Type 0 where
  not_started : LogError
  no_row : LogError
  size_mismatch : ℕ → ℕ → LogError

-- The logger after a call, and what the call threw.
abbrev pub Outcome : Type 0
Outcome = DataLogger × Option LogError

unfoldable pub init : String → DataLogger
init filename = record {
  filename = filename;
  file = [];
  columns = [];
  current_row = [];
  row_started = false;
  row_count = 0;
  flushes = 0;
}

unfoldable pub flush : DataLogger → DataLogger
flush l = record l { flushes = l.flushes + 1 }

unfoldable pub add_column : DataLogger → String → DataLogger
add_column l name = record l { columns = l.columns ++ name ∷ [] }

unfoldable pub write_header : DataLogger → DataLogger
unfolding flush
write_header l = flush (record l { file = l.file ++ l.columns ∷ [] })

unfoldable pub start_row : DataLogger → DataLogger
start_row l = record l { row_started = true; current_row = [] }

unfoldable pub add_value : {T : Type 0} → (T → String) → DataLogger → T → Outcome
add_value format l value =
    if l.row_started
    then (record l { current_row = l.current_row ++ format value ∷ [] }, none)
    else (l, some not_started)

-- The flush after every 100 rows.
unfoldable pub count_row : DataLogger → DataLogger
unfolding flush
count_row l =
    let l1 = record l { row_count = l.row_count + 1 } in
    if l1.row_count % 100 == 0 then flush l1 else l1

-- A row of the right size.
unfoldable pub write_row : DataLogger → DataLogger
unfolding count_row
write_row l = count_row (record l { file = l.file ++ l.current_row ∷ []; row_started = false })

unfoldable pub end_row : DataLogger → Outcome
unfolding write_row
end_row l =
    if not l.row_started
    then (l, some no_row)
    else if not (length l.current_row == length l.columns)
    then (l, some (size_mismatch (length l.columns) (length l.current_row)))
    else (write_row l, none)
