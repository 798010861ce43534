-- ===== src/Logger/Turns.antt =====
-- What the queues of Logger/Logger.cpp hold after the turns of the loop of `main`.
use logger_verifier.Base.Decimal.{ℤ, pos}
use logger_verifier.Logger.Pipeline.{
  Queues, Vision, Grab, capture, detect_edges, make_hash, sign_hash, main_round, init_queue,
}
use logger_verifier.Logger.Rounds.{IsFresh, capture-balanced}
use logger_verifier.Logger.Setup.{
  Desk, lamping_rounds, State, on_messages, on_queues, init, main_turn, main_turns, open_camera,
  lamping_time, lamping_rounds, logger_main,
}
use logger_verifier.MsgQueue as MsgQueue
use logger_verifier.MsgQueue.{camera_cfg_recv}
use logger_verifier.Base.{
  ℕ, ◌+◌, ◌*◌, ◌≡◌, refl, sym, ap, ◌∙◌, subst, inl, inr, Bool, true, false, some, List, [], ◌∷◌,
  map, arith, if◌then◌else◌, Option-cases, length, length-append, length-map,
}

-- What a turn adds to `G_queue`.
abbrev pub left_behind : Bool → ℕ → ℕ
left_behind yuv_switch n = if yuv_switch then 0 else n

module _ (V : Vision) where
  detect_edges-gray :
      (yuv_switch : Bool) (q : Queues)
      → length (detect_edges V yuv_switch q).gray_queue
        ≡ length q.gray_queue + left_behind yuv_switch (length q.bgr_queue)
  unfolding detect_edges
  detect_edges-gray true q = omega arith
  detect_edges-gray false q =
      length-append q.gray_queue (map V.to_gray q.bgr_queue)
      ∙ ap (λ k. length q.gray_queue + k) (length-map q.bgr_queue V.to_gray)

  make_hash-gray : (q q' : Queues) → make_hash V q ≡ some q' → q'.gray_queue ≡ q.gray_queue
  unfolding make_hash
  make_hash-gray q q' e = ground arith

  sign_hash-gray : (q q' : Queues) → sign_hash V q ≡ some q' → q'.gray_queue ≡ q.gray_queue
  unfolding sign_hash
  sign_hash-gray q q' e = ground arith

  main_round-gray :
      (yuv_switch : Bool) (n : ℕ) (gs : List Grab) (q q' : Queues)
      → IsFresh q
      → main_round V yuv_switch n gs q ≡ some q'
      → length q'.gray_queue ≡ length q.gray_queue + left_behind yuv_switch n
  unfolding main_round
  main_round-gray yuv_switch n gs q q' fresh e = elim (Option-cases (capture V n gs q)) [
    | inl f ↦ ground arith
    | inr (c, f) ↦
        let (l, m, t) =
          capture-balanced V n gs q c (ground (arith, fresh.no_cid, fresh.no_bgr)) f in
        elim (Option-cases (make_hash V (detect_edges V yuv_switch c))) [
          | inl g ↦ ground arith
          | inr (d, g) ↦
              let a = make_hash-gray (detect_edges V yuv_switch c) d g in
              let b = sign_hash-gray d q' (ground arith) in
              let k = detect_edges-gray yuv_switch c in
              let same : c.gray_queue ≡ q.gray_queue = ap (λ x. x.gray_queue) t in
              ap length (b ∙ a)
              ∙ k
              ∙ ap (λ x. length x + left_behind yuv_switch (length c.bgr_queue)) same
              ∙ ap (λ x. length q.gray_queue + left_behind yuv_switch x) l
        ]
  ]

  init_queue-IsFresh : (q : Queues) → IsFresh (init_queue V q)
  unfolding init_queue
  init_queue-IsFresh q = record {
    no_bgr = refl;
    no_yuv420 = refl;
    no_y = refl;
    no_feature_vector = refl;
    no_hash = refl;
    no_signed = refl;
    no_cid = refl;
  }

  init_queue-gray : (q : Queues) → (init_queue V q).gray_queue ≡ q.gray_queue
  unfolding init_queue
  init_queue-gray q = refl

module _ (V : Vision) (Q : MsgQueue.Queues) (K : Desk) (opens : K.opened ≡ true) where
  init-queues :
      (st st' : State V Q K) (r : ℤ)
      → init V Q K st ≡ some (r, st')
      → (r ≡ pos 0) × (st'.queues ≡ st.queues) × (st'.requested ≡ st'.camera)
  unfolding init on_messages
  init-queues st st' r e = ground arith

  main_turn-queues :
      (yuv_switch : Bool) (n : ℕ) (gs : List Grab) (st st' : State V Q K) (ok : Bool)
      → main_turn V Q K yuv_switch n gs st ≡ some (ok, st')
      → (ok ≡ true)
        × (st'.requested ≡ st'.camera)
        × (q : Queues) × (main_round V yuv_switch n gs st.queues ≡ some q)
        × (st'.queues ≡ init_queue V q)
  unfolding main_turn on_queues
  main_turn-queues yuv_switch n gs st st' ok e = elim (Option-cases (init V Q K st)) [
    | inl f ↦ ground arith
    | inr ((r, s1), f) ↦
        let (z, same, asked) = init-queues st s1 r f in
        elim (Option-cases (main_round V yuv_switch n gs s1.queues)) [
          | inl g ↦ ground arith
          | inr (q, g) ↦ (
            ground arith,
            ground arith,
            q,
            ap (main_round V yuv_switch n gs) (sym same) ∙ g,
            ground arith,
          )
        ]
  ]

  main_turns-gray :
      (yuv_switch : Bool) (n : ℕ) (turns : List (List Grab)) (st st' : State V Q K)
      → IsFresh st.queues
      → main_turns V Q K yuv_switch n turns st ≡ some (tt, st')
      → IsFresh st'.queues
        × (length st'.queues.gray_queue
            ≡ length st.queues.gray_queue + length turns * left_behind yuv_switch n)
  unfolding main_turns
  main_turns-gray yuv_switch n [] st st' fresh e =
      let same : st ≡ st' = ground arith in
      (
        subst (λ x. IsFresh x.queues) same fresh,
        ap (λ x. length x.queues.gray_queue) (sym same) ∙ grind arith,
      )
  main_turns-gray yuv_switch n (gs ∷ turns) st st' fresh e =
      elim (Option-cases (main_turn V Q K yuv_switch n gs st)) [
        | inl f ↦ absurd (let x = e in ground arith)
        | inr ((ok, s1), f) ↦
            let (all_well, asked, q, round, emptied) =
              main_turn-queues yuv_switch n gs st s1 ok f in
            let one = main_round-gray V yuv_switch n gs st.queues q fresh round in
            let kept = init_queue-gray V q in
            let fresh1 : IsFresh s1.queues = subst IsFresh (sym emptied) (init_queue-IsFresh V q) in
            let (fresh2, later) = main_turns-gray yuv_switch n turns s1 st' fresh1 (ground arith) in
            let here : length s1.queues.gray_queue
                ≡ length st.queues.gray_queue + left_behind yuv_switch n =
              ap (λ x. length x.gray_queue) emptied ∙ ap length kept ∙ one in
            (fresh2, later ∙ grind (arith, here))
      ]

  -- When `main` has come through any number of turns of its loop on queues that were fresh, all
  -- queues but `G_queue` are empty again, and `G_queue` has grown by `frame_count` pictures in each
  -- turn: nothing ever takes one out.
  pub logger_main-grows :
      (n : ℕ) (turns : List (List Grab)) (st st' : State V Q K)
      → IsFresh st.queues
      → logger_main V Q K n turns st ≡ some (tt, st')
      → IsFresh st'.queues
        × (length st'.queues.gray_queue ≡ length st.queues.gray_queue + length turns * n)
  unfolding logger_main open_camera lamping_time
  logger_main-grows n turns st st' fresh e =
      main_turns-gray false n turns (record st { skipped = st.skipped + lamping_rounds }) st' fresh
        (ground arith)
