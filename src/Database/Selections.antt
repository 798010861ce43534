-- ===== src/Database/Selections.antt =====
-- What `select_database` leaves in its caller's strings.
use logger_verifier.Database.Mysql.{Mysql, Row}
use logger_verifier.Database.Queries.{last_record, perform_query, select_database}
use logger_verifier.Base.{ℕ, ◌≡◌, refl, some, List, [], ◌∷◌, map, arith}

-- The record of a row that `row[0]`, `row[1]` and `row[2]` can read.
abbrev pub record_row : List ℕ × List ℕ × List ℕ → Row
record_row (cid, hash, signed_hash) = some cid ∷ some hash ∷ some signed_hash ∷ []

-- The records of the rows, and behind them the strings where there is no row.
abbrev pub newest :
    List ℕ × List ℕ × List ℕ → List (List ℕ × List ℕ × List ℕ) → List ℕ × List ℕ × List ℕ
newest t [] = t
newest t (u ∷ us) = newest u us

last_record-newest :
    (t : List ℕ × List ℕ × List ℕ) (us : List (List ℕ × List ℕ × List ℕ))
    → last_record t (map record_row us) ≡ some (newest t us)
unfolding last_record
last_record-newest t [] = refl
last_record-newest t ((a, b, c) ∷ us) = last_record-newest (a, b, c) us

-- When the server answers with rows of three texts, `select_database` gives its caller the last of
-- them, and leaves the caller's strings as they are when there is no row.
pub select_database-newest :
    (D : Mysql) (text : List ℕ) (t : List ℕ × List ℕ × List ℕ)
    (us : List (List ℕ × List ℕ × List ℕ)) (w : D.World)
    → (D.rows (D.query text w).1).0 ≡ map record_row us
    → select_database D text t w ≡ some (newest t us, (D.rows (D.query text w).1).1)
unfolding select_database perform_query
select_database-newest D text t us w h = let e = last_record-newest t us in ground arith
