-- ===== src/Server/Shares.antt =====
-- The shares of the symmetric key: `generate_shares`, `test_share_gen` and `test_get_share` of
-- Server/server.cpp.
use logger_verifier.Base.Decimal.{ℤ}
use logger_verifier.Base.Run.{Run, pure, ◌>>◌}
use logger_verifier.Database.Mysql.{Mysql}
use logger_verifier.Database.Queries.{insert_data}
use logger_verifier.Server.State.{Environment, State, on_database}
use logger_verifier.Wire.Network.{Network}
use logger_verifier.Base.{
  ℕ, zero, suc, ◌+◌, ◌%◌, Bool, true, false, none, some, List, [], ◌∷◌, ◌++◌, ◌==◌, if◌then◌else◌,
  length, get_or, codes,
}

newline : ℕ
newline = 10

-- `while (getline(s, substr, '\n'))`: the lines; a last line without a newline counts if it has a
-- character. `line` is what has been read of the current one.
lines_from : List ℕ → List ℕ → List (List ℕ)
unfolding newline
lines_from [] [] = []
lines_from (l ∷ line) [] = (l ∷ line) ∷ []
lines_from line (c ∷ cs) =
    let more = lines_from (line ++ c ∷ []) cs in
    let next = lines_from [] cs in if c == newline then line ∷ next else more

unfoldable pub lines : List ℕ → List (List ℕ)
unfolding lines_from
lines text = lines_from [] text

abbrev pub insert_share_text : List ℕ → List ℕ
insert_share_text share = codes "insert into shares value('" ++ share ++ codes "', -1);"

module _ (N : Network) (D : Mysql) (E : Environment) where
  unfoldable pub insert_shares : List (List ℕ) → Run (State N D E) (Unit {0})
  unfolding on_database insert_data
  insert_shares [] = pure tt
  insert_shares (s ∷ ss) =
      on_database N D E (insert_data D (insert_share_text s)) >> insert_shares ss

  unfoldable pub generate_shares : Run (State N D E) (Unit {0})
  unfolding insert_shares lines
  generate_shares =
      insert_shares (lines (E.generate_share_strings E.password E.num_of_share E.key_threshold))

  -- The old shares are dropped before the key file is opened.
  unfoldable pub test_share_gen : ℤ → ℤ → Run (State N D E) Bool
  unfolding lines
  test_share_gen nshare threshold st = elim (E.can_create (codes "symmetric_key")) [
    | true ↦ some (
      true,
      record st {
        test_shares = lines (E.generate_share_strings (E.aes_key E.password) nshare threshold);
      },
    )
    | false ↦ some (false, record st { test_shares = [] })
  ]

  -- `rand() % test_shares.size()`: a division by zero without a share.
  unfoldable pub test_get_share : Run (State N D E) (List ℕ)
  test_get_share st = elim (length st.test_shares) [
    | zero ↦ none
    | suc n ↦
        some
          (get_or st.test_shares (E.rand st.draws % suc n) [], record st { draws = st.draws + 1 })
  ]
