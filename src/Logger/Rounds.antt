-- ===== src/Logger/Rounds.antt =====
-- What a turn of the logger's main loop leaves in the queues.
use logger_verifier.Logger.Pictures.{Mat, mat_data}
use logger_verifier.Logger.Pipeline.{
  Queues, Vision, Grab, keep_frame, capture, detect_edges, make_hash, sign_all, sign_hash,
  main_round,
}
use logger_verifier.Base.{
  ℕ, ◌≡◌, refl, sym, ap, ◌∙◌, subst, ◌⊎◌, inl, inr, Bool, true, false, ◌&&◌, ◌||◌, some, List, [],
  ◌∷◌, ◌++◌, map, append-nil, append_assoc, arith, ◌==◌, if◌then◌else◌, Bool-cases, Option-cases,
  length, take, length-append, length-map,
}

-- Every queue but `G_queue` is empty.
pub record IsFresh (q : Queues) : Type 0 where
  pub no_bgr : q.bgr_queue ≡ []
  pub no_yuv420 : q.yuv420_queue ≡ []
  pub no_y : q.y_queue ≡ []
  pub no_feature_vector : q.feature_vector_queue ≡ []
  pub no_hash : q.hash_queue ≡ []
  pub no_signed : q.hash_signed_queue ≡ []
  pub no_cid : q.cid_queue ≡ []

-- `capture` changes two queues.
abbrev captured_into : Queues → Queues → Queues
captured_into q q' = record q { bgr_queue = q'.bgr_queue; cid_queue = q'.cid_queue }

List-cases : (l : List Mat) → (l ≡ []) ⊎ ((m : Mat) × (ms : List Mat) × (l ≡ m ∷ ms))
List-cases [] = inl refl
List-cases (m ∷ ms) = inr (m, ms, refl)

map-map : (f g : Mat → Mat) (l : List Mat) → map f (map g l) ≡ map (λ m. f (g m)) l
map-map f g [] = refl
map-map f g (m ∷ ms) = ap (λ t. f (g m) ∷ t) (map-map f g ms)

map-hash :
    (f : Mat → Mat) (h : Mat → List ℕ) (l : List Mat) → map h (map f l) ≡ map (λ m. h (f m)) l
map-hash f h [] = refl
map-hash f h (m ∷ ms) = ap (λ t. h (f m) ∷ t) (map-hash f h ms)

take-append_self : (xs ys : List Grab) → take (length xs) (xs ++ ys) ≡ xs
take-append_self [] ys = refl
take-append_self (x ∷ xs) ys = ap (λ l. x ∷ l) (take-append_self xs ys)

module _ (V : Vision) where
  -- The picture that is hashed for a frame.
  abbrev pub feature : Bool → Mat → Mat
  feature true m = V.canny (V.yuv420_to_gray (V.to_yuv420 m))
  feature false m = V.canny m

  keep_frame-balanced :
      (g : Grab) (q : Queues)
      → length q.cid_queue ≡ length q.bgr_queue
      → length (keep_frame V g q).cid_queue ≡ length (keep_frame V g q).bgr_queue
  unfolding keep_frame
  keep_frame-balanced g q h =
      ground
        (arith, length-append q.cid_queue (g.cid ∷ []), length-append q.bgr_queue (g.picture ∷ []))

  keep_frame-captured :
      (g : Grab) (q : Queues) → keep_frame V g q ≡ captured_into q (keep_frame V g q)
  unfolding keep_frame
  keep_frame-captured g q = ground arith

  pub capture-balanced :
      (n : ℕ) (gs : List Grab) (q q' : Queues)
      → length q.cid_queue ≡ length q.bgr_queue
      → capture V n gs q ≡ some q'
      → (length q'.bgr_queue ≡ n) × (length q'.cid_queue ≡ n) × (q' ≡ captured_into q q')
  unfolding capture
  capture-balanced n [] q q' h e = ground arith
  capture-balanced n (g ∷ gs) q q' h e =
      let k = keep_frame V g q in
      let b = keep_frame-balanced g q h in
      let c = keep_frame-captured g q in
      elim (Bool-cases (length k.bgr_queue == n && g.cancelled)) [
        | inl over ↦
            let same : k ≡ q' = ground (arith, over, e) in
            subst
              (λ x. (length x.bgr_queue ≡ n) × (length x.cid_queue ≡ n) × (x ≡ captured_into q x))
              same (ground arith, ground arith, c)
        | inr more ↦
            let (l, m, t) = capture-balanced n gs k q' b (ground (arith, more, e)) in
            (l, m, t ∙ ap (λ x. captured_into x q') c)
      ]

  -- The grabs whose picture is neither empty nor black.
  abbrev pub visible : List Grab → List Grab
  visible [] = []
  visible (g ∷ gs) =
      let later = visible gs in
      if length g.picture.bytes == 0 || V.element_mean g.picture == 0 then later else g ∷ later

  -- `capture` adds visible grabs, in their order and from the first on.
  keep_frame-visible :
      (g : Grab) (gs vs rest : List Grab) (q q' : Queues)
      → visible gs ≡ vs ++ rest
      → q'.bgr_queue ≡ (keep_frame V g q).bgr_queue ++ map (λ g. g.picture) vs
      → q'.cid_queue ≡ (keep_frame V g q).cid_queue ++ map (λ g. g.cid) vs
      → (vs' : List Grab) × (visible (g ∷ gs) ≡ vs' ++ rest)
        × (q'.bgr_queue ≡ q.bgr_queue ++ map (λ g. g.picture) vs')
        × (q'.cid_queue ≡ q.cid_queue ++ map (λ g. g.cid) vs')
  unfolding keep_frame
  keep_frame-visible g gs vs rest q q' e b c = elim (Bool-cases (length g.picture.bytes == 0)) [
    | inl empty ↦ (vs, ground arith, ground arith, ground arith)
    | inr some_bytes ↦ elim (Bool-cases (V.element_mean g.picture == 0)) [
      | inl black ↦ (vs, ground arith, ground arith, ground arith)
      | inr seen ↦ (
        g ∷ vs,
        ground arith,
        ground (arith, append_assoc q.bgr_queue (g.picture ∷ []) (map (λ g. g.picture) vs)),
        ground (arith, append_assoc q.cid_queue (g.cid ∷ []) (map (λ g. g.cid) vs)),
      )
    ]
  ]

  capture-visible :
      (n : ℕ) (gs : List Grab) (q q' : Queues)
      → capture V n gs q ≡ some q'
      → (vs : List Grab) × (rest : List Grab) × (visible gs ≡ vs ++ rest)
        × (q'.bgr_queue ≡ q.bgr_queue ++ map (λ g. g.picture) vs)
        × (q'.cid_queue ≡ q.cid_queue ++ map (λ g. g.cid) vs)
  unfolding capture
  capture-visible n [] q q' e = ground arith
  capture-visible n (g ∷ gs) q q' e =
      let k = keep_frame V g q in
      elim (Bool-cases (length k.bgr_queue == n && g.cancelled)) [
        | inl over ↦
            let same : k ≡ q' = ground (arith, over, e) in
            let (vs, v, b, c) =
              keep_frame-visible g gs [] (visible gs) q q' refl
                (ap (λ x. x.bgr_queue) (sym same) ∙ sym (append-nil k.bgr_queue))
                (ap (λ x. x.cid_queue) (sym same) ∙ sym (append-nil k.cid_queue)) in
            (vs, visible gs, v, b, c)
        | inr more ↦
            let (vs, rest, v, b, c) = capture-visible n gs k q' (ground (arith, more, e)) in
            let (vs', v', b', c') = keep_frame-visible g gs vs rest q q' v b c in
            (vs', rest, v', b', c')
      ]

  -- The grabs of the first `n` visible pictures.
  abbrev pub kept : ℕ → List Grab → List Grab
  kept n gs = take n (visible gs)

  -- On fresh queues `capture` leaves the first `n` visible pictures and their CIDs.
  capture-kept :
      (n : ℕ) (gs : List Grab) (q q' : Queues)
      → IsFresh q
      → capture V n gs q ≡ some q'
      → length q'.bgr_queue ≡ n
      → (q'.bgr_queue ≡ map (λ g. g.picture) (kept n gs))
        × (q'.cid_queue ≡ map (λ g. g.cid) (kept n gs))
        × (length (kept n gs) ≡ n)
  capture-kept n gs q q' fresh e l =
      let (vs, rest, v, b, c) = capture-visible n gs q q' e in
      let b' : q'.bgr_queue ≡ map (λ g. g.picture) vs =
        b ∙ ap (λ x. x ++ map (λ g. g.picture) vs) fresh.no_bgr in
      let c' : q'.cid_queue ≡ map (λ g. g.cid) vs =
        c ∙ ap (λ x. x ++ map (λ g. g.cid) vs) fresh.no_cid in
      let size : length vs ≡ n = sym (length-map vs (λ g. g.picture)) ∙ ap length (sym b') ∙ l in
      let same : kept n gs ≡ vs =
        ap (take n) v ∙ ap (λ k. take k (vs ++ rest)) (sym size) ∙ take-append_self vs rest in
      (
        b' ∙ ap (map (λ g. g.picture)) (sym same),
        c' ∙ ap (map (λ g. g.cid)) (sym same),
        ap length same ∙ size,
      )

  -- The queues after `main_round` on fresh queues: the frames are the first `n` visible pictures.
  pub record IsRound (yuv_switch : Bool) (n : ℕ) (gs : List Grab) (q' : Queues) : Type 0 where
    pub frames_count : length (kept n gs) ≡ n
    pub cids : q'.cid_queue ≡ map (λ g. g.cid) (kept n gs)
    pub hashes :
        q'.hash_queue
        ≡ map
            (λ m. V.hash_sha256 (mat_data (feature yuv_switch m)))
            (map (λ g. g.picture) (kept n gs))
    pub signatures : map some q'.hash_signed_queue ≡ map V.sign_message q'.hash_queue

  sign_all-map :
      (hs ss : List (List ℕ)) → sign_all V hs ≡ some ss → map some ss ≡ map V.sign_message hs
  unfolding sign_all
  sign_all-map [] ss e = ground arith
  sign_all-map (h ∷ hs) ss e = elim (Option-cases (sign_all V hs)) [
    | inl f ↦ ground arith
    | inr (t, f) ↦ let r = sign_all-map hs t f in ground arith
  ]

  sign_hash-signatures :
      (q q' : Queues)
      → q.hash_signed_queue ≡ []
      → sign_hash V q ≡ some q'
      → (map some q'.hash_signed_queue ≡ map V.sign_message q.hash_queue)
        × (q'.hash_queue ≡ q.hash_queue)
        × (q'.cid_queue ≡ q.cid_queue)
  unfolding sign_hash
  sign_hash-signatures q q' fresh e = elim (Option-cases (sign_all V q.hash_queue)) [
    | inl f ↦ ground arith
    | inr (t, f) ↦
        let r = sign_all-map q.hash_queue t f in (ground arith, ground arith, ground arith)
  ]

  make_hash-hashes :
      (q q' : Queues)
      → q.hash_queue ≡ []
      → make_hash V q ≡ some q'
      → q' ≡ record q { hash_queue = map (λ m. V.hash_sha256 (mat_data m)) q.feature_vector_queue }
  unfolding make_hash
  make_hash-hashes q q' fresh e = elim (List-cases q.feature_vector_queue) [
    | inl f ↦ ground arith
    | inr (m, ms, f) ↦ ground arith
  ]

  detect_edges-features :
      (yuv_switch : Bool) (q q' : Queues)
      → IsFresh q
      → (detect_edges V yuv_switch (captured_into q q')).feature_vector_queue
        ≡ map (feature yuv_switch) q'.bgr_queue
  unfolding detect_edges
  detect_edges-features true q q' fresh =
      rw
        (
          fresh.no_feature_vector,
          fresh.no_y,
          map-map V.canny (λ m. V.yuv420_to_gray (V.to_yuv420 m)) q'.bgr_queue,
        )
        refl
  detect_edges-features false q q' fresh = rw (fresh.no_feature_vector) refl

  detect_edges-keeps :
      (yuv_switch : Bool) (q : Queues)
      → ((detect_edges V yuv_switch q).hash_queue ≡ q.hash_queue)
        × ((detect_edges V yuv_switch q).hash_signed_queue ≡ q.hash_signed_queue)
        × ((detect_edges V yuv_switch q).cid_queue ≡ q.cid_queue)
  unfolding detect_edges
  detect_edges-keeps true q = (refl, refl, refl)
  detect_edges-keeps false q = (refl, refl, refl)

  -- A turn of the main loop that starts on fresh queues and ends takes as its frames the first
  -- `frame_count` pictures that are neither empty nor black, in the order in which the camera's
  -- thread had them, and there are so many. The CIDs are those of these frames, each frame has the
  -- SHA-256 of the text of its edge picture in the hash queue, in their order, and each hash its
  -- signature in the queue of the signed ones. With `YUV_switch` the edges are those of the frame's
  -- Y part, without it those of the frame itself, in colour.
  pub main_round-hashes :
      (yuv_switch : Bool) (n : ℕ) (gs : List Grab) (q q' : Queues)
      → IsFresh q
      → main_round V yuv_switch n gs q ≡ some q'
      → IsRound yuv_switch n gs q'
  unfolding main_round
  main_round-hashes yuv_switch n gs q q' fresh e = elim (Option-cases (capture V n gs q)) [
    | inl f ↦ ground arith
    | inr (c, f) ↦
        let (l, m, t) = capture-balanced n gs q c (ground (arith, fresh.no_cid, fresh.no_bgr)) f in
        elim (Option-cases (make_hash V (detect_edges V yuv_switch c))) [
          | inl g ↦ ground arith
          | inr (d, g) ↦
              let (k1, k2, k3) = detect_edges-keeps yuv_switch c in
              let features : (detect_edges V yuv_switch c).feature_vector_queue
                  ≡ map (feature yuv_switch) c.bgr_queue =
                ap (λ x. (detect_edges V yuv_switch x).feature_vector_queue) t
                ∙ detect_edges-features yuv_switch q c fresh in
              let none_yet : (detect_edges V yuv_switch c).hash_queue ≡ [] =
                k1 ∙ ap (λ x. x.hash_queue) t ∙ fresh.no_hash in
              let none_signed : (detect_edges V yuv_switch c).hash_signed_queue ≡ [] =
                k2 ∙ ap (λ x. x.hash_signed_queue) t ∙ fresh.no_signed in
              let h = make_hash-hashes (detect_edges V yuv_switch c) d none_yet g in
              let (s1, s2, s3) =
                sign_hash-signatures d q' (ap (λ x. x.hash_signed_queue) h ∙ none_signed)
                  (ground arith) in
              let (frames, cids, count) = capture-kept n gs q c fresh f l in
              record {
                frames_count = count;
                cids = s3 ∙ ap (λ x. x.cid_queue) h ∙ k3 ∙ cids;
                hashes =
                    s2
                    ∙ ap (λ x. x.hash_queue) h
                    ∙ ap (map (λ m. V.hash_sha256 (mat_data m))) features
                    ∙ map-hash (feature yuv_switch) (λ m. V.hash_sha256 (mat_data m)) c.bgr_queue
                    ∙ ap (map (λ m. V.hash_sha256 (mat_data (feature yuv_switch m)))) frames;
                signatures = s1 ∙ ap (map V.sign_message) (sym s2);
              }
        ]
  ]
