-- ===== src/Common/DataLogger/Rows.antt =====
-- src/common/DataLogger.hpp: what becomes of the values of a row.
use cubesat_fsw_gnc.Prelude.{
  arith, ◌≡◌, refl, sym, ap, ◌∙◌, ◌≢◌, true, false, none, some, List, [], ◌∷◌, ◌++◌, map, length,
  ◌==◌, if◌then◌else◌, length-map,
}
use cubesat_fsw_gnc.Common.DataLogger.{
  not_started, DataLogger, Outcome, size_mismatch, start_row, end_row, add_value, flush, count_row,
  write_row,
}
use mathlib.Core.List.{append-nil, append_assoc}
use Prim.Native.String.{String}

-- The values of a row one after another, until one throws.
unfoldable pub add_values : {T : Type 0} → (T → String) → DataLogger → List T → Outcome
add_values format l [] = (l, none)
add_values format l (value ∷ values) =
    let (l1, thrown) = add_value format l value in
    elim thrown [ none ↦ add_values format l1 values | some e ↦ (l1, some e) ]

add_value-started :
    {T : Type 0} (format : T → String) (l : DataLogger) (value : T)
    → l.row_started ≡ true
    → add_value format l value
      ≡ (record l { current_row = l.current_row ++ format value ∷ [] }, none)
unfolding add_value
add_value-started format l value h =
    ap
      (λ b.
        if b
        then (record l { current_row = l.current_row ++ format value ∷ [] }, none)
        else (l, some not_started))
      h

add_values-started :
    {T : Type 0} (format : T → String) (l : DataLogger) (values : List T)
    → l.row_started ≡ true
    → add_values format l values
      ≡ (record l { current_row = l.current_row ++ map format values }, none)
unfolding add_values add_value
add_values-started format l [] h =
    ap (λ row. (record l { current_row = row }, none)) (sym (append-nil _))
add_values-started format l (value ∷ values) h =
    let l1 = record l { current_row = l.current_row ++ format value ∷ [] } in
    ap (λ (p : Outcome). elim p.1 [ none ↦ add_values format p.0 values | some e ↦ (p.0, some e) ])
      (add_value-started format l value h)
    ∙ add_values-started format l1 values h
    ∙ ap (λ row. (record l { current_row = row }, none))
        (append_assoc l.current_row (format value ∷ []) (map format values))

-- A row: its start, its values and its end.
unfoldable pub log_row : {T : Type 0} → (T → String) → DataLogger → List T → Outcome
log_row format l values = end_row (add_values format (start_row l) values).0

log_row-row :
    {T : Type 0} (format : T → String) (l : DataLogger) (values : List T)
    → log_row format l values
      ≡ end_row (record l { row_started = true; current_row = map format values })
unfolding log_row start_row
log_row-row format l values =
    ap (λ p. end_row p.0) (add_values-started format (start_row l) values refl)

count_row-file : (l : DataLogger) → (count_row l).file ≡ l.file
unfolding count_row flush
count_row-file l = ground arith

-- A row of as many values as there are columns becomes one line at the end of the file, and no call
-- throws.
pub log_row-fits :
    {T : Type 0} (format : T → String) (l : DataLogger) (values : List T)
    → length values ≡ length l.columns
    → ((log_row format l values).0.file ≡ l.file ++ map format values ∷ [])
      × ((log_row format l values).1 ≡ none)
unfolding end_row write_row
log_row-fits format l values h =
    let size : (length (map format values) == length l.columns) ≡ true =
      ground (arith, length-map values format, h) in
    let row = record l { row_started = true; current_row = map format values } in
    rw (log_row-row format l values, size) (count_row-file _, refl)

-- A row of another number of values than there are columns throws the two sizes and leaves the
-- file; the row stays open with its values.
pub log_row-mismatch :
    {T : Type 0} (format : T → String) (l : DataLogger) (values : List T)
    → length values ≢ length l.columns
    → log_row format l values ≡ (
      record l { row_started = true; current_row = map format values },
      some (size_mismatch (length l.columns) (length values)),
    )
unfolding end_row
log_row-mismatch format l values h =
    let size : (length (map format values) == length l.columns) ≡ false =
      ground (arith, length-map values format, h) in
    rw (log_row-row format l values, size, length-map values format) refl
