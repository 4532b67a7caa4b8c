-- ===== src/Csv.antt =====
-- The CSV files of bench/ycsb_driver.go and cmd/experiments/main.go: the directory of a path, and the
-- two functions that append a row to a file. A path is the list of its bytes; a file is none while it
-- does not exist, and the list of its rows otherwise. What the operating system and the CSV writer do
-- in a call is data of the call.
pub mod Header
pub mod Paths
use distributed_key_value_st.Prelude.{
  ℕ, zero, suc, String, Bool, true, false, not, ◌&&◌, ◌||◌, Option, none, some, List, [], ◌∷◌, ◌++◌,
  length, leb, if◌then◌else◌,
}

-- The first `n` elements.
unfoldable pub take {ℓ} : {A : Type ℓ} → ℕ → List A → List A
take zero xs = []
take (suc n) [] = []
take (suc n) (x ∷ xs) = x ∷ take n xs

-- `path[i] == '/'`
is_slash : List ℕ → ℕ → Bool
is_slash [] i = false
is_slash (b ∷ path) zero = leb b 47 && leb 47 b
is_slash (b ∷ path) (suc i) = is_slash path i

-- The loop of `dirOf`, from the position below `i` down to the first.
dir_loop : List ℕ → ℕ → List ℕ
unfolding is_slash take
dir_loop path zero = 46 ∷ []
dir_loop path (suc i) = let rest = dir_loop path i in if is_slash path i then take i path else rest

pub dir_of : List ℕ → List ℕ
unfolding dir_loop
dir_of path = dir_loop path (length path)

-- `dirOf` of cmd/experiments/main.go has the same body.
abbrev pub trial_dir_of : List ℕ → List ℕ
trial_dir_of = dir_of

abbrev pub Row : Type 0
Row = List String

abbrev pub File : Type 0
File = Option (List Row)

-- What a call finds: whether the directory can be made and the file opened, whether the writer takes the
-- header and the row, whether the flush succeeds, and what the file holds when one of these does not.
pub record System : Type 0 where
  pub makes_dir : List ℕ → Bool
  pub opens : Bool
  pub takes_header : Bool
  pub takes_row : Bool
  pub flushes : Bool
  pub left : List Row

-- The rows of a file, none yet in a new one.
abbrev pub rows_of : File → List Row
rows_of none = []
rows_of (some rows) = rows

abbrev pub exists : File → Bool
exists none = false
exists (some rows) = true

-- The end of `WriteSummaryCSV`, and of `appendTrialRow`, which ignores what the writer reports.
abbrev pub put_rows : System → Bool → List Row → List Row → File × Bool
put_rows sys taken rows new =
    if taken && sys.flushes then (some (rows ++ new), true) else (some sys.left, false)

-- `WriteSummaryCSV` with the row of the result: the file, and whether it reports no error.
unfoldable pub write_summary_csv : List ℕ → Row → Row → System → File → File × Bool
write_summary_csv path header row sys file =
    if not (sys.makes_dir (dir_of path))
    then (file, false)
    else if not sys.opens
    then (file, false)
    else if not (exists file)
    then (if not sys.takes_header
        then (some sys.left, false)
        else put_rows sys sys.takes_row (rows_of file) (header ∷ row ∷ []))
    else put_rows sys sys.takes_row (rows_of file) (row ∷ [])

-- `appendTrialRow`: the file, and whether the process goes on.
unfoldable pub append_trial_row : List ℕ → Row → Row → System → File → File × Bool
append_trial_row path header row sys file =
    if not (sys.makes_dir (trial_dir_of path))
    then (file, false)
    else if not sys.opens
    then (file, false)
    else (
      (put_rows sys ((exists file || sys.takes_header) && sys.takes_row) (rows_of file)
          (if not (exists file) then header ∷ row ∷ [] else row ∷ [])).0,
      true,
    )

-- A call after another, each with its own row, while they succeed.
unfoldable pub write_all :
    (Row → System → File → File × Bool) → List (Row × System) → File → File × Bool
write_all write [] file = (file, true)
write_all write ((row, sys) ∷ calls) file =
    let (file', good) = write row sys file in
    let rest = write_all write calls file' in if good then rest else (file', false)
