-- ===== src/ClientStage/Rows.antt =====
-- The files of pkg/stage that have a row for each call: the JSON of a value and a newline. A row is
-- its value here, and what a failed write leaves of the last row is kept apart. A row that is longer
-- than the buffer of the scanner is left out.
use leyline.Base.{List, Option, [], none, some, ◌++◌, ◌∷◌}

-- The end of a file: each line has its newline, or the last row is whole but for its newline, or a
-- line does not parse, at which the loop over the lines returns an error.
pub data Tail : Type 0 where
  ended unended broken : Tail

pub record RowFile {ℓ} (A : Type ℓ) : Type ℓ where
  pub rows : List A
  pub tail : Tail

-- The bytes of a row that a write puts into the file before it fails.
pub data Cut : Type 0 where
  no_bytes some_bytes all_but_newline : Cut

module _ {ℓ} {A : Type ℓ} where
  abbrev pub whole_file : List A → RowFile A
  whole_file rows = record { rows = rows; tail = ended }

  -- A row after the end of the file: on a line of its own, or on that of another row.
  abbrev pub row_after : Tail → List A → A → RowFile A
  row_after ended rows a = record { rows = rows ++ a ∷ []; tail = ended }
  row_after unended rows a = record { rows = rows; tail = broken }
  row_after broken rows a = record { rows = rows; tail = broken }

  abbrev pub write_row : RowFile A → A → RowFile A
  write_row f a = row_after f.tail f.rows a

  abbrev pub cut_after : Cut → Tail → List A → A → RowFile A
  cut_after no_bytes t rows a = record { rows = rows; tail = t }
  cut_after some_bytes t rows a = record { rows = rows; tail = broken }
  cut_after all_but_newline ended rows a = record { rows = rows ++ a ∷ []; tail = unended }
  cut_after all_but_newline unended rows a = record { rows = rows; tail = broken }
  cut_after all_but_newline broken rows a = record { rows = rows; tail = broken }

  abbrev pub cut_row : Cut → RowFile A → A → RowFile A
  cut_row c f a = cut_after c f.tail f.rows a

  -- The rows that are read back; `none` is the error of a line that does not parse.
  abbrev pub rows_before : Tail → List A → Option (List A)
  rows_before ended rows = some rows
  rows_before unended rows = some rows
  rows_before broken rows = none

  abbrev pub read_rows : RowFile A → Option (List A)
  read_rows f = rows_before f.tail f.rows

-- What becomes of a file that is written anew and opened again: the new file is in place and open, or
-- the old one is in place, or the new one is, but an error is returned before it is open.
pub data Replace : Type 0 where
  replaced not_replaced not_reopened : Replace
