-- ===== src/Database/Tests.antt =====
-- Runs of the database layer at concrete answers.
use logger_verifier.Base.Decimal.{pos}
use logger_verifier.Database.Mysql.{Mysql, Row}
use logger_verifier.Database.Queries.{
  insert_video_text, count_text, max_lid_text, free_share_text, insert_logger_text,
  insert_public_key_text, lid_value, insert_pk_database, insert_video_data, get_share,
  select_database, lid_exists, last_cell,
}
use logger_verifier.Database.Scripted.{scripted}
use logger_verifier.Database.Sessions.{
  script, insert_pk_database-log, insert_video_data-sends, get_share-log,
}
use logger_verifier.Database.Selections.{record_row, select_database-newest}
use logger_verifier.Base.{ℕ, ◌≡◌, refl, none, some, List, [], ◌∷◌, map, arith, codes}

abbrev one_cell : List ℕ → List Row
one_cell text = (some text ∷ []) ∷ []

abbrev first_registration : List (List Row)
first_registration = one_cell (codes "0") ∷ [] ∷ [] ∷ one_cell (codes "L-07") ∷ []

stored_key :
    insert_pk_database scripted (codes "id") (codes "key") (script first_registration [])
    ≡ some (
      codes "L-07",
      script [] (
          count_text
          ∷ insert_logger_text (codes "key")
          ∷ insert_public_key_text lid_value (codes "key")
          ∷ max_lid_text
          ∷ []),
    )
unfolding lid_exists last_cell
stored_key =
    insert_pk_database-log (pos 0) (codes "id") (codes "key") (codes "L-07") first_registration []
      (ground arith) refl refl

-- A server on which every query fails; its state lists the texts that it was sent.
abbrev failing : Mysql
failing = record { World = List (List ℕ); query = λ text w. (1, text ∷ w); rows = λ w. ([], w) }

insert_video_data-sends_example :
    insert_video_data failing (codes "cid") (codes "hash") (codes "sign") []
    ≡ some (tt, insert_video_text (codes "cid") (codes "hash") (codes "sign") ∷ [])
insert_video_data-sends_example =
    insert_video_data-sends failing (codes "cid") (codes "hash") (codes "sign") [] (ground arith)
      (ground arith) (ground arith)

share_given :
    get_share scripted (pos 3) (script (one_cell (codes "s1") ∷ []) [])
    ≡ some (
      codes "s1",
      script [] (free_share_text ∷ codes "update shares set  =  where share = 's1';" ∷ []),
    )
unfolding last_cell
share_given =
    get_share-log 3 (codes "s1") (one_cell (codes "s1") ∷ []) [] (ground arith) (ground arith) refl

-- A share of NULL is read as a text.
null_share : get_share scripted (pos 3) (script (((none ∷ []) ∷ []) ∷ []) []) ≡ none
unfolding get_share last_cell
null_share = refl

-- Of two rows the second is given back.
two_rows :
    select_database scripted
      (codes "q")
      ([], [], [])
      (script
        (map record_row ((codes "a", codes "b", codes "c") ∷ ([], codes "d", []) ∷ []) ∷ [])
        [])
    ≡ some (([], codes "d", []), script [] (codes "q" ∷ []))
two_rows =
    select_database-newest scripted (codes "q") ([], [], [])
      ((codes "a", codes "b", codes "c") ∷ ([], codes "d", []) ∷ []) _ refl
