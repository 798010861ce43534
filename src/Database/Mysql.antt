-- ===== src/Database/Mysql.antt =====
-- The calls of the MySQL client library, as a parameter. A text is its bytes; a cell of a row is a
-- NULL pointer or a text.
use logger_verifier.Base.{ℕ, Option, List}

abbrev pub Row : Type 0
Row = List (Option (List ℕ))

-- `query` is `mysql_query`, 0 for success. `rows` is what successive calls of `mysql_fetch_row`
-- give before NULL, on what `mysql_use_result` returned; none where that is NULL.
pub record Mysql : Type 1 where
  pub World : Type 0
  pub query : List ℕ → World → ℕ × World
  pub rows : World → List Row × World
