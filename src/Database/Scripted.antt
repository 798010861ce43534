-- ===== src/Database/Scripted.antt =====
-- A MySQL server that answers from a list, and records the texts that it was sent. What a method
-- asks is stated as its record.
use logger_verifier.Database.Mysql.{Mysql, Row}
use logger_verifier.Base.{ℕ, List, [], ◌∷◌, ◌++◌}

pub record Script : Type 0 where
  pub answers : List (List Row)
  pub log : List (List ℕ)

abbrev pub next_answer : List (List Row) → List Row
next_answer [] = []
next_answer (a ∷ as') = a

abbrev pub later_answers : List (List Row) → List (List Row)
later_answers [] = []
later_answers (a ∷ as') = as'

abbrev pub scripted : Mysql
scripted = record {
  World = Script;
  query = λ text w. (0, record w { log = w.log ++ text ∷ [] });
  rows = λ w. (next_answer w.answers, record w { answers = later_answers w.answers });
}
