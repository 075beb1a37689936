-- ===== src/Common/DataLogger/Lines.antt =====
-- src/common/DataLogger.hpp: the lines of the file, their fields and the flushes, after each method.
use cubesat_fsw_gnc.Prelude.{
  ℕ, arith, ◌+◌, ◌/◌, ◌%◌, ◌≤◌, ◌≡◌, refl, inl, inr, Bool, true, false, not, List, [], ◌∷◌, ◌++◌,
  length, ◌==◌, if◌then◌else◌, Bool-cases, length-append,
}
use cubesat_fsw_gnc.Common.DataLogger.{
  Outcome, add_column, write_header, flush, end_row, add_value, start_row, write_row, DataLogger,
}
use Prim.Native.String.{String}

-- Every line has a number of fields in a range.
abbrev pub Widths : ℕ → ℕ → List (List String) → Type 0
Widths low high [] = Unit
Widths low high (line ∷ file) = (low ≤ length line) × (length line ≤ high) × Widths low high file

Widths-append :
    (low high : ℕ) (file : List (List String)) (line : List String)
    → Widths low high file
    → low ≤ length line
    → length line ≤ high
    → Widths low high (file ++ line ∷ [])
Widths-append low high [] line h a b = (a, b, tt)
Widths-append low high (first ∷ file) line (p, q, h) a b =
    (p, q, Widths-append low high file line h a b)

pub Widths-le :
    (low high high' : ℕ) (file : List (List String))
    → high ≤ high'
    → Widths low high file
    → Widths low high' file
Widths-le low high high' [] b h = tt
Widths-le low high high' (line ∷ file) b (p, q, h) =
    (p, omega (arith, q, b), Widths-le low high high' file b h)

-- The lines have from `low` fields up to the number of columns, which is `high`. They are `headers`
-- headers and the counted rows, with a flush for each header and one for every 100 rows at least.
pub record IsLog (low high headers : ℕ) (l : DataLogger) : Type 0 where
  pub widths : Widths low high l.file
  pub columns_eq : length l.columns ≡ high
  pub low_le : low ≤ high
  pub lines_eq : length l.file ≡ l.row_count + headers
  pub flushes_le : l.row_count / 100 + headers ≤ l.flushes

write_row-IsLog :
    (low high headers : ℕ) (l : DataLogger)
    → length l.current_row ≡ length l.columns
    → IsLog low high headers l
    → IsLog low high headers (write_row l)
unfolding write_row
write_row-IsLog low high headers l e h =
    let wide : low ≤ length l.current_row = omega (arith, e, h.columns_eq, h.low_le) in
    let narrow : length l.current_row ≤ high = omega (arith, e, h.columns_eq) in
    let lines = Widths-append low high l.file l.current_row h.widths wide narrow in
    elim (Bool-cases ((l.row_count + 1) % 100 == 0)) [
      | inl t ↦ rw t record {
        widths = lines;
        columns_eq = h.columns_eq;
        low_le = h.low_le;
        lines_eq = omega (arith, length-append l.file (l.current_row ∷ []), h.lines_eq);
        flushes_le = ground (arith, h.flushes_le);
      }
      | inr t ↦ rw t record {
        widths = lines;
        columns_eq = h.columns_eq;
        low_le = h.low_le;
        lines_eq = omega (arith, length-append l.file (l.current_row ∷ []), h.lines_eq);
        flushes_le = ground (arith, h.flushes_le, t);
      }
    ]

-- What holds after both branches of a test.
Outcome-if :
    (P : DataLogger → Type 0) (b : Bool) (x y : Outcome)
    → (b ≡ true → P x.0)
    → (b ≡ false → P y.0)
    → P (if b then x else y).0
Outcome-if P true x y p q = p refl
Outcome-if P false x y p q = q refl

pub end_row-IsLog :
    (low high headers : ℕ) (l : DataLogger)
    → IsLog low high headers l
    → IsLog low high headers (end_row l).0
unfolding end_row
end_row-IsLog low high headers l h =
    let same = length l.current_row == length l.columns in
    Outcome-if (IsLog low high headers) (not l.row_started) _ _ (λ e. h)
      λ e.
        Outcome-if (IsLog low high headers) (not same) _ _ (λ e. h)
          λ e. write_row-IsLog low high headers l (ground arith) h

pub column-IsLog :
    (low high headers : ℕ) (l : DataLogger) (name : String)
    → IsLog low high headers l
    → IsLog low (high + 1) headers (add_column l name)
unfolding add_column
column-IsLog low high headers l name h = record {
  widths = Widths-le low high (high + 1) l.file (omega arith) h.widths;
  columns_eq = omega (arith, length-append l.columns (name ∷ []), h.columns_eq);
  low_le = omega (arith, h.low_le);
  lines_eq = h.lines_eq;
  flushes_le = h.flushes_le;
}

pub header-IsLog :
    (low high headers : ℕ) (l : DataLogger)
    → IsLog low high headers l
    → IsLog low high (headers + 1) (write_header l)
unfolding write_header flush
header-IsLog low high headers l h =
    let wide : low ≤ length l.columns = omega (arith, h.columns_eq, h.low_le) in
    let narrow : length l.columns ≤ high = omega (arith, h.columns_eq) in
    record {
      widths = Widths-append low high l.file l.columns h.widths wide narrow;
      columns_eq = h.columns_eq;
      low_le = h.low_le;
      lines_eq = omega (arith, length-append l.file (l.columns ∷ []), h.lines_eq);
      flushes_le = omega (arith, h.flushes_le);
    }

pub start_row-IsLog :
    (low high headers : ℕ) (l : DataLogger)
    → IsLog low high headers l
    → IsLog low high headers (start_row l)
unfolding start_row
start_row-IsLog low high headers l h = record {
  widths = h.widths;
  columns_eq = h.columns_eq;
  low_le = h.low_le;
  lines_eq = h.lines_eq;
  flushes_le = h.flushes_le;
}

pub add_value-IsLog :
    {T : Type 0} (format : T → String) (low high headers : ℕ) (l : DataLogger) (value : T)
    → IsLog low high headers l
    → IsLog low high headers (add_value format l value).0
unfolding add_value
add_value-IsLog format low high headers l value h =
    Outcome-if (IsLog low high headers) l.row_started _ _
      (λ e. record {
        widths = h.widths;
        columns_eq = h.columns_eq;
        low_le = h.low_le;
        lines_eq = h.lines_eq;
        flushes_le = h.flushes_le;
      })
      (λ e. h)

pub flush-IsLog :
    (low high headers : ℕ) (l : DataLogger)
    → IsLog low high headers l
    → IsLog low high headers (flush l)
unfolding flush
flush-IsLog low high headers l h = record {
  widths = h.widths;
  columns_eq = h.columns_eq;
  low_le = h.low_le;
  lines_eq = h.lines_eq;
  flushes_le = omega (arith, h.flushes_le);
}
