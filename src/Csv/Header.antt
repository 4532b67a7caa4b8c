-- ===== src/Csv/Header.antt =====
-- What a CSV file holds after any number of rows have been appended.
use distributed_key_value_st.Prelude.{
  ℕ, ◌≡◌, refl, ap, subst, ◌∙◌, if◌then◌else◌, true, false, Bool, none, some, List, [], ◌∷◌, ◌++◌,
  map, arith, append_assoc, append-nil,
}
use distributed_key_value_st.Csv.{Row, File, System, write_summary_csv, write_all}

-- The rows that stand before an appended one: those of the file, or the header in a new one.
abbrev pub started : Row → File → List Row
started header none = header ∷ []
started header (some rows) = rows

abbrev pub Appends : Row → (Row → System → File → File × Bool) → Type 0
Appends header write =
    (row : Row) (sys : System) (file file' : File)
    → write row sys file ≡ (file', true)
    → file' ≡ some (started header file ++ row ∷ [])

pub write_summary_csv-Appends :
    (path : List ℕ) (header : Row) → Appends header (write_summary_csv path header)
unfolding write_summary_csv
write_summary_csv-Appends path header row sys none file' h = ground arith
write_summary_csv-Appends path header row sys (some rows) file' h = ground arith

module _ (header : Row) (write : Row → System → File → File × Bool)
    (appends : Appends header write) where
  -- The first of several calls and those after it.
  first_call :
      (row : Row) (sys : System) (calls : List (Row × System)) (file : File) (r : File × Bool)
      {file' : File}
      → write row sys file ≡ r
      → write_all write ((row, sys) ∷ calls) file ≡ (file', true)
      → write_all write calls (some (started header file ++ row ∷ [])) ≡ (file', true)
  unfolding write_all
  first_call row sys calls file (mid, true) {file'} e h =
      subst (λ m. write_all write calls m ≡ (file', true)) (appends row sys file mid e)
        (subst (λ r. (if r.1 then write_all write calls r.0 else (r.0, false)) ≡ (file', true)) e h)
  first_call row sys calls file (mid, false) {file'} e h = absurd (
      ground (
        arith,
        subst
            (λ (r : File × Bool).
              (if r.1 then write_all write calls r.0 else (r.0, false)) ≡ (file', true))
            e h,
      ))

  more_rows :
      (calls : List (Row × System)) (rows : List Row) {file' : File}
      → write_all write calls (some rows) ≡ (file', true)
      → file' ≡ some (rows ++ map (λ (c : Row × System). c.0) calls)
  unfolding write_all
  more_rows [] rows h = ground (arith, append-nil rows)
  more_rows ((row, sys) ∷ calls) rows h =
      more_rows calls (rows ++ row ∷ [])
        (first_call row sys calls (some rows) (write row sys (some rows)) refl h)
      ∙ ap some (append_assoc rows (row ∷ []) (map (λ (c : Row × System). c.0) calls))

-- A file that calls of `WriteSummaryCSV` have made or added to, each with success, holds what it held, or
-- the header if it was not there, and then the row of each call, in order.
pub write_all_lem :
    (path : List ℕ) (header row : Row) (sys : System) (calls : List (Row × System)) (file : File)
    {file' : File}
    → write_all (write_summary_csv path header) ((row, sys) ∷ calls) file ≡ (file', true)
    → file' ≡ some (started header file ++ row ∷ map (λ (c : Row × System). c.0) calls)
write_all_lem path header row sys calls file h =
    let write = write_summary_csv path header in
    let a = write_summary_csv-Appends path header in
    more_rows header write a calls (started header file ++ row ∷ [])
      (first_call header write a row sys calls file (write row sys file) refl h)
    ∙ ap some
        (append_assoc (started header file) (row ∷ []) (map (λ (c : Row × System). c.0) calls))
