-- ===== src/KeyShare/Collect.antt =====
-- The loop of `c_GetThreshhold` in helloworld/greeter_client.cc, over any service whose `GetShare`
-- returns.
use logger_verifier.KeyShare.Client.{
  Stub, ask, ask_threshhold, message, max_try, SharesFile, stored_shares, collect_shares,
  c_get_threshhold,
}
use logger_verifier.KeyShare.Sets.{IsSorted, insert-IsSorted, insert-All, length-insert}
use logger_verifier.KeyShare.Text.{insert, write_share, read_lines, read_share}
use logger_verifier.Base.{
  ℕ, zero, suc, ◌+◌, ◌≤◌, ◌<◌, ◌≡◌, refl, ap, ◌∙◌, ◌≢◌, ◌⊎◌, inl, inr, true, Option, some, List, [],
  ◌∷◌, ◌++◌, append_assoc, arith, ℕ_discrete, length, All, c_string,
}

-- A service that is `Ready` answers `GetShare` with a text of `P`, failed calls included, and is
-- `Ready` again. `calls` counts the calls.
pub record Answers (S : Stub) (P : List ℕ → Type 0) : Type 1 where
  pub Ready : S.World → Type 0
  pub calls : S.World → ℕ
  pub answer :
      (user : List ℕ) (w : S.World)
      → Ready w
      → (r : Option (List ℕ)) × (w' : S.World) × (S.get_share user w ≡ some (r, w'))
        × Ready w'
        × (calls w' ≡ suc (calls w))
        × P (c_string (message r))

-- What `getline` takes apart is put together again, up to the last newline.
read_lines-write_share :
    (line s : List ℕ) (ss : List (List ℕ))
    → read_lines line (s ++ 10 ∷ write_share ss) ≡ line ++ (s ++ 10 ∷ write_share ss)
unfolding read_lines write_share
read_lines-write_share line (c ∷ s) ss =
    let newline = read_lines-write_share [] s ss in
    let other = read_lines-write_share (line ++ c ∷ []) s ss in
    let joined = append_assoc line (c ∷ []) (s ++ 10 ∷ write_share ss) in ground arith
read_lines-write_share line [] [] = refl
read_lines-write_share line [] (s ∷ ss) =
    ap (λ rest. line ++ 10 ∷ rest) (read_lines-write_share [] s ss)

read_share-write_share :
    (shares : List (List ℕ)) → read_share (some (write_share shares)) ≡ write_share shares
unfolding read_share read_lines write_share
read_share-write_share [] = refl
read_share-write_share (s ∷ ss) = read_lines-write_share [] s ss

module _ (S : Stub) (P : List ℕ → Type 0) (A : Answers S P) where
  -- The end of the loop, started at `w` with `left` tries: a set of at most `num` texts, all of
  -- them answers; and of `num` unless every try was made.
  pub record Collected (num left : ℕ) (w : S.World) (shares : List (List ℕ)) (w' : S.World)
      : Type 0 where
    pub sorted : IsSorted shares
    pub answers : All P shares
    pub few : length shares ≤ num
    pub enough : (length shares ≡ num) ⊎ (A.calls w' ≡ A.calls w + left)
    pub ready : A.Ready w'

  -- What the loop ends with.
  abbrev pub Ends : List ℕ → ℕ → ℕ → List (List ℕ) → S.World → Type 0
  Ends user num left shares w =
      (res : List (List ℕ)) × (w' : S.World) × (collect_shares S user num left shares w
        ≡ some (res, w'))
      × Collected num left w res w'

  module _ (user : List ℕ) (num left : ℕ) (shares : List (List ℕ)) (w : S.World) where
    collect_stops :
        (r : Option (List ℕ)) (w' : S.World)
        → length shares < num
        → S.get_share user w ≡ some (r, w')
        → length (insert (c_string (message r)) shares) ≡ num
        → collect_shares S user num (suc left) shares w
          ≡ some (insert (c_string (message r)) shares, w')
    unfolding collect_shares ask
    collect_stops r w' few e full = ground arith

    collect_goes_on :
        (r : Option (List ℕ)) (w' : S.World)
        → length shares < num
        → S.get_share user w ≡ some (r, w')
        → length (insert (c_string (message r)) shares) ≢ num
        → collect_shares S user num (suc left) shares w
          ≡ collect_shares S user num left (insert (c_string (message r)) shares) w'
    unfolding collect_shares ask
    collect_goes_on r w' few e more = ground arith

  collect_shares-Collected :
      (user : List ℕ) (num left : ℕ) (shares : List (List ℕ)) (w : S.World)
      → A.Ready w
      → IsSorted shares
      → All P shares
      → length shares < num
      → Ends user num left shares w
  unfolding collect_shares
  collect_shares-Collected user num zero shares w ready sorted answers few = (
    shares,
    w,
    refl,
    record {
      sorted = sorted;
      answers = answers;
      few = omega arith;
      enough = inr (omega arith);
      ready = ready;
    },
  )
  collect_shares-Collected user num (suc left) shares w ready sorted answers few =
      let (r, w1, e, ready1, counted, ok) = A.answer user w ready in
      let more = insert (c_string (message r)) shares in
      let more_sorted = insert-IsSorted (c_string (message r)) shares sorted in
      let more_answers = insert-All P (c_string (message r)) shares ok answers in
      let size = length-insert (c_string (message r)) shares in
      elim (ℕ_discrete (length more) num) [
        | yes q ↦ (
          more,
          w1,
          collect_stops user num left shares w r w1 few e q,
          record {
            sorted = more_sorted;
            answers = more_answers;
            few = omega arith;
            enough = inl q;
            ready = ready1;
          },
        )
        | no q ↦
            let (res, w2, f, c) =
              collect_shares-Collected user num left more w1 ready1 more_sorted more_answers
                (omega arith) in
            (
              res,
              w2,
              collect_goes_on user num left shares w r w1 few e q ∙ f,
              record {
                sorted = c.sorted;
                answers = c.answers;
                few = c.few;
                enough = elim c.enough [
                  | inl full ↦ inl full
                  | inr all ↦ inr (omega (arith, all, counted))
                ];
                ready = c.ready;
              },
            )
      ]

  -- When the shares' file can be written, the threshold arrives and is not 0, and every `GetShare`
  -- returns, the string that `c_GetThreshhold` returns is the lines of a set of answers: in order,
  -- without repetition, no more than the threshold, and fewer only after 20 calls.
  pub c_get_threshhold-Collected :
      (user : List ℕ) (num : ℕ) (file : SharesFile) (w w1 : S.World)
      → S.get_threshhold user w ≡ some (some num, w1)
      → 0 < num
      → file.writable ≡ true
      → A.Ready w1
      → (shares : List (List ℕ)) × (w' : S.World) × (c_get_threshhold S file user w
          ≡ some (write_share shares, w'))
        × Collected num max_try w1 shares w'
  unfolding c_get_threshhold ask_threshhold stored_shares
  c_get_threshhold-Collected user num file w w1 e some_wanted writable ready =
      let (shares, w', f, c) =
        collect_shares-Collected user num max_try [] w1 ready tt tt some_wanted in
      let back = read_share-write_share shares in (shares, w', ground arith, c)
