-- ===== src/Database/Sessions.antt =====
-- Which queries the methods send.
use logger_verifier.Base.Decimal.{ℤ, pos, negsuc}
use logger_verifier.Database.Mysql.{Mysql, Row}
use logger_verifier.Database.Queries.{
  lid_value, sprintf_2048, insert_video_text, count_text, insert_logger_text,
  insert_public_key_text, update_text, max_lid_text, free_share_text, last_cell, lid_exists,
  lid_literal, perform_query, insert_video_data, update_database, insert_public_keys_table,
  add_logger, change_logger, store_key, insert_pk_database, get_share,
}
use logger_verifier.Database.Scripted.{Script, scripted, next_answer, later_answers}
use logger_verifier.Base.{
  ℕ, zero, suc, ◌+◌, ◌≤◌, ◌<◌, ◌≡◌, sym, ap, true, some, List, [], ◌∷◌, ◌++◌, append-nil,
  append_assoc, arith, leb, lt→ltb, length, drop, length-append, length-drop, codes,
}

abbrev pub script : List (List Row) → List (List ℕ) → Script
script answers log = record { answers = answers; log = log }

abbrev pub change_logger_text : List ℕ → List ℕ
change_logger_text key =
    update_text (codes "pub_key = '" ++ key ++ codes "'") (codes "Loggers")
      (codes "LID = '" ++ lid_value ++ codes "'")

-- The texts that store a key, by the number of loggers found with its LID.
abbrev pub key_texts : ℤ → List ℕ → List (List ℕ)
key_texts (pos zero) key = insert_logger_text key ∷ insert_public_key_text lid_value key ∷ []
key_texts (pos (suc zero)) key = change_logger_text key ∷ insert_public_key_text lid_value key ∷ []
key_texts _ key = []

-- What is left of the answers after `n` queries.
abbrev pub skip : ℕ → List (List Row) → List (List Row)
skip zero answers = answers
skip (suc n) answers = skip n (later_answers answers)

fits : (text : List ℕ) → length text < 2048 → sprintf_2048 text ≡ some text
fits text h = rw (lt→ltb (length text) 2048 h)

insert_logger-fits : (key : List ℕ) → length key < 1900 → length (insert_logger_text key) < 2048
insert_logger-fits key h = rw (length-append key (codes "')")) (grind arith)

insert_public_key-fits :
    (key : List ℕ) → length key < 1900 → length (insert_public_key_text lid_value key) < 2048
insert_public_key-fits key h = rw (length-append key (codes "')")) (grind arith)

update_size :
    (assign table where_text : List ℕ)
    → length (update_text assign table where_text)
      ≡ 20 + length assign + length table + length where_text
update_size assign table where_text =
    rw
      (
        length-append (table ++ codes " set " ++ assign ++ codes " where " ++ where_text)
            (codes ";"),
        length-append (table ++ codes " set " ++ assign ++ codes " where ") (where_text),
        length-append (table ++ codes " set " ++ assign) (codes " where "),
        length-append (table ++ codes " set ") (assign),
        length-append table (codes " set "),
      )
      (ground arith)

insert_video_size :
    (cid hash signed_hash : List ℕ)
    → length (insert_video_text cid hash signed_hash)
      ≡ 86 + length cid + length hash + length signed_hash
unfolding insert_video_text
insert_video_size cid hash signed_hash =
    rw
      (
        length-append
            (cid
              ++ codes "', '"
              ++ lid_value
              ++ codes "', '"
              ++ hash
              ++ codes "', '"
              ++ signed_hash)
            (codes "')"),
        length-append (cid ++ codes "', '" ++ lid_value ++ codes "', '" ++ hash ++ codes "', '")
            (signed_hash),
        length-append (cid ++ codes "', '" ++ lid_value ++ codes "', '" ++ hash) (codes "', '"),
        length-append (cid ++ codes "', '" ++ lid_value ++ codes "', '") (hash),
        length-append (cid ++ codes "', '" ++ lid_value) (codes "', '"),
        length-append (cid ++ codes "', '") (lid_value),
        length-append cid (codes "', '"),
      )
      (ground arith)

change_logger-fits : (key : List ℕ) → length key < 1900 → length (change_logger_text key) < 2048
change_logger-fits key h =
    let e =
      update_size (codes "pub_key = '" ++ key ++ codes "'") (codes "Loggers")
        (codes "LID = '" ++ lid_value ++ codes "'") in
    let l = length-append key (codes "'") in grind arith

logged_twice : (log : List (List ℕ)) (a b : List ℕ) → (log ++ a ∷ []) ++ b ∷ [] ≡ log ++ a ∷ b ∷ []
logged_twice log a b = append_assoc log (a ∷ []) (b ∷ [])

-- Storing a key under an LID that `Loggers` has no row, one row or another number of rows for.
store_key-scripted :
    (n : ℤ) (key : List ℕ) (answers : List (List Row)) (log : List (List ℕ))
    → length key < 1900
    → store_key scripted n key (script answers log)
      ≡ some (tt, script (skip (length (key_texts n key)) answers) (log ++ key_texts n key))
unfolding insert_public_keys_table add_logger change_logger update_database perform_query
store_key-scripted (pos zero) key answers log h =
    rw
      (
        fits (insert_logger_text key) (insert_logger-fits key h),
        fits (insert_public_key_text lid_value key) (insert_public_key-fits key h),
      )
      (ap (λ l. some (tt, script (later_answers (later_answers answers)) l))
        (logged_twice log (insert_logger_text key) (insert_public_key_text lid_value key)))
store_key-scripted (pos (suc zero)) key answers log h =
    rw
      (
        fits (change_logger_text key) (change_logger-fits key h),
        fits (insert_public_key_text lid_value key) (insert_public_key-fits key h),
      )
      (ap (λ l. some (tt, script (later_answers (later_answers answers)) l))
        (logged_twice log (change_logger_text key) (insert_public_key_text lid_value key)))
store_key-scripted (pos (suc (suc n))) key answers log h =
    ap (λ l. some (tt, script answers l)) (sym (append-nil log))
store_key-scripted (negsuc n) key answers log h =
    ap (λ l. some (tt, script answers l)) (sym (append-nil log))

-- With a key of fewer than 1900 bytes, where the server's answers hold no NULL cell,
-- `insert_pk_database` asks for the number of rows of the LID, sends the texts that this number
-- calls for, which are none for a number other than 0 and 1, asks for the highest LID, and returns
-- that one.
pub insert_pk_database-log :
    (n : ℤ) (id key lid : List ℕ) (answers : List (List Row)) (log : List (List ℕ))
    → length key < 1900
    → lid_exists (next_answer answers) ≡ some n
    → last_cell [] (next_answer (skip (length (key_texts n key)) (later_answers answers)))
      ≡ some lid
    → insert_pk_database scripted id key (script answers log)
      ≡ some (
        lid,
        script
            (later_answers (skip (length (key_texts n key)) (later_answers answers)))
            (((log ++ count_text ∷ []) ++ key_texts n key) ++ max_lid_text ∷ []),
      )
unfolding insert_pk_database perform_query
insert_pk_database-log n id key lid answers log h found highest =
    let stored = store_key-scripted n key (later_answers answers) (log ++ count_text ∷ []) h in
    ground arith

-- A CID of at most 23 bytes, a hash of at most 64 and a signed hash of at most 350 always fit the
-- buffer: on every server, the one text with these three values is sent, once, whatever
-- `mysql_query` returns, and the rows of its result are asked for next.
pub insert_video_data-sends :
    (D : Mysql) (cid hash signed_hash : List ℕ) (w : D.World)
    → length cid ≤ 23
    → length hash ≤ 64
    → length signed_hash ≤ 350
    → insert_video_data D cid hash signed_hash w
      ≡ some (tt, (D.rows (D.query (insert_video_text cid hash signed_hash) w).1).1)
unfolding insert_video_data perform_query
insert_video_data-sends D cid hash signed_hash w hc hh hs =
    let e = insert_video_size cid hash signed_hash in
    let f = fits (insert_video_text cid hash signed_hash) (grind arith) in ground arith

-- The same on a scripted server.
pub insert_video_data-log :
    (cid hash signed_hash : List ℕ) (answers : List (List Row)) (log : List (List ℕ))
    → length cid ≤ 23
    → length hash ≤ 64
    → length signed_hash ≤ 350
    → insert_video_data scripted cid hash signed_hash (script answers log)
      ≡ some
          (tt, script (later_answers answers) (log ++ insert_video_text cid hash signed_hash ∷ []))
insert_video_data-log cid hash signed_hash answers log hc hh hs =
    insert_video_data-sends scripted cid hash signed_hash (script answers log) hc hh hs

-- For an LID from 0 to 6 and a share of fewer than 1900 bytes that the server answers with,
-- `get_share` returns that share and sends two texts. The second sets a tail of the literal "LID =
-- ", from the LID-th character on, and nothing of the LID itself.
pub get_share-log :
    (n : ℕ) (share : List ℕ) (answers : List (List Row)) (log : List (List ℕ))
    → n ≤ 6
    → length share < 1900
    → last_cell [] (next_answer answers) ≡ some share
    → get_share scripted (pos n) (script answers log)
      ≡ some (
        share,
        script (skip 2 answers) (
            log
            ++ free_share_text
              ∷ update_text
                  (drop n (codes "LID = "))
                  (codes "shares")
                  (codes "share = '" ++ share ++ codes "'")
              ∷ []),
      )
unfolding get_share perform_query lid_literal update_database
get_share-log n share answers log hn hl found =
    let set = drop n (codes "LID = ") in
    let which = codes "share = '" ++ share ++ codes "'" in
    let e = update_size set (codes "shares") which in
    let l = length-append share (codes "'") in
    let d = length-drop n (codes "LID = ") in
    let f = fits (update_text set (codes "shares") which) (grind arith) in
    let b : leb n 6 ≡ true = ground arith in
    ground (arith, logged_twice log free_share_text (update_text set (codes "shares") which))
