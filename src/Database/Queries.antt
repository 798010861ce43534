-- ===== src/Database/Queries.antt =====
-- The methods of `bout_database` that talk to the server. `none` is undefined behaviour: a buffer
-- of `sprintf` that is too small, a NULL cell that is read, a literal that is indexed past its end.
use logger_verifier.Base.Decimal.{ℤ, pos, negsuc, decimal_int, atoi}
use logger_verifier.Base.Run.{Run, pure, ◌>>=◌, ◌>>◌, need}
use logger_verifier.Database.Mysql.{Mysql, Row}
use logger_verifier.Base.{
  ℕ, zero, suc, Option, none, some, List, [], ◌∷◌, ◌++◌, ltb, leb, if◌then◌else◌, length, set, drop,
  codes,
}

abbrev unverified_table : List ℕ
unverified_table = codes "Video_data_table"

-- The `lid_value` that both inserting methods use for every logger.
abbrev pub lid_value : List ℕ
lid_value = codes "L-01"

-- `sprintf` into `char query[2048]`.
abbrev pub sprintf_2048 : List ℕ → Option (List ℕ)
sprintf_2048 text = if ltb (length text) 2048 then some text else none

unfoldable pub insert_video_text : List ℕ → List ℕ → List ℕ → List ℕ
insert_video_text cid hash signed_hash =
    codes "INSERT INTO "
    ++ unverified_table
    ++ codes " (CID, LID, hash, signed_hash) values ('"
    ++ cid
    ++ codes "', '"
    ++ lid_value
    ++ codes "', '"
    ++ hash
    ++ codes "', '"
    ++ signed_hash
    ++ codes "')"

abbrev pub count_text : List ℕ
count_text = codes "SELECT COUNT(*) FROM Loggers WHERE LID = '" ++ lid_value ++ codes "'"

abbrev pub insert_logger_text : List ℕ → List ℕ
insert_logger_text key =
    codes "INSERT INTO Loggers (LID, pub_key) values( '"
    ++ lid_value
    ++ codes "', '"
    ++ key
    ++ codes "')"

abbrev pub insert_public_key_text : List ℕ → List ℕ → List ℕ
insert_public_key_text lid key =
    codes "INSERT INTO Public_keys (LID, pub_key) VALUES ('"
    ++ lid
    ++ codes "', '"
    ++ key
    ++ codes "')"

abbrev pub update_text : List ℕ → List ℕ → List ℕ → List ℕ
update_text set table where_text =
    codes "update " ++ table ++ codes " set " ++ set ++ codes " where " ++ where_text ++ codes ";"

abbrev pub max_lid_text : List ℕ
max_lid_text = codes "select max(LID) from Loggers; "

abbrev pub free_share_text : List ℕ
free_share_text = codes "select share from shares where LID=-1 limit 1;"

-- `row[0]`: a row without cells cannot come back from the queries below.
abbrev first_cell : Row → Option (List ℕ)
first_cell [] = none
first_cell (c ∷ cs) = c

-- `while ((row = mysql_fetch_row(res)) != NULL) s = row[0];` starting from the text `s`.
unfoldable pub last_cell : List ℕ → List Row → Option (List ℕ)
last_cell s [] = some s
last_cell s (r ∷ rs) = elim (first_cell r) [ none ↦ none | some c ↦ last_cell c rs ]

-- `row[0]`, `row[1]` and `row[2]`.
abbrev three_cells : Row → Option (List ℕ × List ℕ × List ℕ)
three_cells (some cid ∷ some hash ∷ some signed_hash ∷ cs) = some (cid, hash, signed_hash)
three_cells _ = none

-- `select_database`'s loop, from the values that the caller's three strings have.
unfoldable pub last_record : List ℕ × List ℕ × List ℕ → List Row → Option (List ℕ × List ℕ × List ℕ)
last_record t [] = some t
last_record t (r ∷ rs) = elim (three_cells r) [ none ↦ none | some u ↦ last_record u rs ]

-- `while (…) shares.push_back(row[0]);`
unfoldable pub all_cells : List Row → Option (List (List ℕ))
all_cells [] = some []
all_cells (r ∷ rs) = elim (first_cell r) [
  | none ↦ none
  | some c ↦ elim (all_cells rs) [ none ↦ none | some cs ↦ some (c ∷ cs) ]
]

-- `lidExists`: 0 without a row, else `atoi(checkRow[0])`.
unfoldable pub lid_exists : List Row → Option ℤ
unfolding atoi
lid_exists [] = some (pos 0)
lid_exists (r ∷ rs) = elim (first_cell r) [ none ↦ none | some c ↦ some (atoi c) ]

-- `"LID = " + LID` adds an `int` to a pointer: the literal from its `LID`-th character on.
unfoldable pub lid_literal : ℤ → Option (List ℕ)
lid_literal (pos n) = if leb n 6 then some (drop n (codes "LID = ")) else none
lid_literal (negsuc n) = none

module _ (D : Mysql) where
  open D use {World, query, rows}

  -- The loop of `mysql_perform_query` ends in `break` at its first round, whatever `mysql_query`
  -- returned, so a query is sent once.
  unfoldable pub perform_query : List ℕ → Run World (List Row)
  perform_query text w = let (rc, w') = query text w in some (rows w')

  -- `insert_data` does not look at the result.
  unfoldable pub insert_data : List ℕ → Run World (Unit {0})
  unfolding perform_query
  insert_data text = do _ ← perform_query text; pure tt

  -- CID, HASH and SIGNED_HASH are passed by reference.
  unfoldable pub select_database :
      List ℕ → List ℕ × List ℕ × List ℕ → Run World (List ℕ × List ℕ × List ℕ)
  unfolding perform_query
  select_database text strings = do found ← perform_query text; need (last_record strings found)

  unfoldable pub insert_video_data : List ℕ → List ℕ → List ℕ → Run World (Unit {0})
  unfolding perform_query insert_video_text
  insert_video_data cid hash signed_hash = do
    text ← need (sprintf_2048 (insert_video_text cid hash signed_hash))
    _ ← perform_query text
    pure tt

  unfoldable pub update_database : List ℕ → List ℕ → List ℕ → Run World (Unit {0})
  unfolding perform_query
  update_database set table where_text = do
    text ← need (sprintf_2048 (update_text set table where_text))
    _ ← perform_query text
    pure tt

  unfoldable pub insert_public_keys_table : List ℕ → List ℕ → Run World (Unit {0})
  unfolding perform_query
  insert_public_keys_table lid key = do
    text ← need (sprintf_2048 (insert_public_key_text lid key))
    _ ← perform_query text
    pure tt

  -- A key for an LID that `Loggers` does not have yet.
  unfoldable pub add_logger : List ℕ → Run World (Unit {0})
  unfolding perform_query insert_public_keys_table
  add_logger key = do
    text ← need (sprintf_2048 (insert_logger_text key))
    _ ← perform_query text
    insert_public_keys_table lid_value key

  -- A key for an LID that it has.
  unfoldable pub change_logger : List ℕ → Run World (Unit {0})
  unfolding update_database insert_public_keys_table
  change_logger key = do
    update_database (codes "pub_key = '" ++ key ++ codes "'") (codes "Loggers")
        (codes "LID = '" ++ lid_value ++ codes "'")
    insert_public_keys_table lid_value key

  abbrev pub store_key : ℤ → List ℕ → Run World (Unit {0})
  store_key (pos zero) key = add_logger key
  store_key (pos (suc zero)) key = change_logger key
  store_key _ key = pure tt

  unfoldable pub insert_pk_database : List ℕ → List ℕ → Run World (List ℕ)
  unfolding perform_query add_logger change_logger
  insert_pk_database key_id key_value = do
    found ← perform_query count_text
    n ← need (lid_exists found)
    store_key n key_value
    highest ← perform_query max_lid_text
    need (last_cell [] highest)

  unfoldable pub get_latest_key_id : Run World (List ℕ)
  unfolding perform_query
  get_latest_key_id = do
    found ← perform_query (codes "select key_ID from public_key where key_status = 1;")
    need (last_cell [] found)

  unfoldable pub get_share : ℤ → Run World (List ℕ)
  unfolding perform_query update_database
  get_share lid = do
    found ← perform_query free_share_text
    share ← need (last_cell [] found)
    set ← need (lid_literal lid)
    update_database set (codes "shares") (codes "share = '" ++ share ++ codes "'")
    pure share

  unfoldable pub get_ano_shares : ℤ → ℤ → Run World (List (List ℕ))
  unfolding perform_query
  get_ano_shares lid limit = do
    found ← perform_query (
        codes "select share from shares where LID != "
        ++ decimal_int lid
        ++ codes " limit "
        ++ decimal_int limit
        ++ codes ";")
    need (all_cells found)
