-- ===== src/Merkle/Binding.antt =====
-- What the root hash says of the blocks.
use mathlib.Core.List.{Memᴰ}
use logger_verifier.Merkle.{Node, block, combined, hash, pair_up, build, merkle_root}
use logger_verifier.Merkle.Levels.{level, map-hash-pair_up, length-pair_up}
use logger_verifier.Merkle.Build.{single}
use logger_verifier.Base.{
  ℕ, zero, suc, ◌≡◌, refl, sym, ap, ◌∙◌, subst, ◌≢◌, ◌⊎◌, inl, inr, some, List, [], ◌∷◌, ◌++◌, map,
  append-nil, arith, ◌==◌, Bool-cases, length, length-map, append-cancel, All, bytes_eq,
  bytes_eq_refl, bytes_eq→eq,
}

-- Two different messages with one digest, one of each list.
abbrev pub Collision : (List ℕ → List ℕ) → List (List ℕ) → List (List ℕ) → Type 0
Collision digest ms ns =
    (a : List ℕ) × (b : List ℕ) × (a ≢ b) × (digest a ≡ digest b) × Memᴰ a ms × Memᴰ b ns

-- The messages that were hashed to build a tree.
abbrev pub messages : Node → List (List ℕ)
messages (block h) = []
messages (combined h l r) = (hash l ++ hash r) ∷ messages l ++ messages r

abbrev all_messages : List Node → List (List ℕ)
all_messages [] = []
all_messages (x ∷ xs) = messages x ++ all_messages xs

-- The messages of one round.
abbrev pairs : List (List ℕ) → List (List ℕ)
pairs [] = []
pairs (x ∷ []) = []
pairs (x ∷ y ∷ rest) = (x ++ y) ∷ pairs rest

Memᴰ-left : {m : List ℕ} (xs ys : List (List ℕ)) → Memᴰ m xs → Memᴰ m (xs ++ ys)
Memᴰ-left [] ys d = elim d [ ]
Memᴰ-left (x ∷ xs) ys (Memᴰ.head e) = Memᴰ.head e
Memᴰ-left (x ∷ xs) ys (Memᴰ.tail d) = Memᴰ.tail (Memᴰ-left xs ys d)

Memᴰ-right : {m : List ℕ} (xs ys : List (List ℕ)) → Memᴰ m ys → Memᴰ m (xs ++ ys)
Memᴰ-right [] ys d = d
Memᴰ-right (x ∷ xs) ys d = Memᴰ.tail (Memᴰ-right xs ys d)

Memᴰ-append : {m : List ℕ} (xs ys : List (List ℕ)) → Memᴰ m (xs ++ ys) → Memᴰ m xs ⊎ Memᴰ m ys
Memᴰ-append [] ys d = inr d
Memᴰ-append (x ∷ xs) ys (Memᴰ.head e) = inl (Memᴰ.head e)
Memᴰ-append (x ∷ xs) ys (Memᴰ.tail d) = elim (Memᴰ-append xs ys d) [
  | inl l ↦ inl (Memᴰ.tail l)
  | inr r ↦ inr r
]

abbrev pub IsHash : List ℕ → Type 0
IsHash h = length h ≡ 64

bytes-cases : (xs ys : List ℕ) → (xs ≡ ys) ⊎ (xs ≢ ys)
bytes-cases xs ys = elim (Bool-cases (bytes_eq xs ys)) [
  | inl same ↦ inl (bytes_eq→eq xs ys same)
  | inr other ↦ inr (λ e. cc (other, bytes_eq_refl ys, e))
]

module _ (digest : List ℕ → List ℕ) (digest-IsHash : (m : List ℕ) → IsHash (digest m)) where
  All-level : (hs : List (List ℕ)) → All IsHash hs → All IsHash (level digest hs)
  unfolding level
  All-level [] h = tt
  All-level (x ∷ []) h = h
  All-level (x ∷ y ∷ rest) h = (digest-IsHash (x ++ y), All-level rest h.1.1)

  combine_binding :
      (x y x' y' : List ℕ)
      → IsHash x
      → IsHash x'
      → digest (x ++ y) ≡ digest (x' ++ y')
      → ((x ≡ x') × (y ≡ y')) ⊎ (((x ++ y) ≢ (x' ++ y')) × (digest (x ++ y) ≡ digest (x' ++ y')))
  combine_binding x y x' y' h h' e = elim (bytes-cases (x ++ y) (x' ++ y')) [
    | inl same ↦ inl (append-cancel x y x' y' (h ∙ sym h') same)
    | inr other ↦ inr (other, e)
  ]

  level_binding :
      (xs ys : List (List ℕ))
      → length xs ≡ length ys
      → All IsHash xs
      → All IsHash ys
      → level digest xs ≡ level digest ys
      → (xs ≡ ys) ⊎ Collision digest (pairs xs) (pairs ys)
  unfolding level
  level_binding [] [] n hx hy e = inl refl
  level_binding [] (y ∷ ys) n hx hy e = absurd (omega arith)
  level_binding (x ∷ xs) [] n hx hy e = absurd (omega arith)
  level_binding (x ∷ []) (y ∷ []) n hx hy e = inl e
  level_binding (x ∷ []) (y ∷ y' ∷ ys) n hx hy e = absurd (omega arith)
  level_binding (x ∷ x' ∷ xs) (y ∷ []) n hx hy e = absurd (omega arith)
  level_binding (x ∷ x' ∷ xs) (y ∷ y' ∷ ys) n hx hy e =
      elim (combine_binding x x' y y' hx.0 hy.0 (ground arith)) [
        | inr (other, same) ↦ inr (x ++ x', y ++ y', other, same, Memᴰ.head refl, Memᴰ.head refl)
        | inl (first, second) ↦
            elim (level_binding xs ys (omega arith) hx.1.1 hy.1.1 (ground arith)) [
              | inl rest ↦ inl (ground arith)
              | inr (a, b, other, same, m, m') ↦ inr (a, b, other, same, Memᴰ.tail m, Memᴰ.tail m')
            ]
      ]

  pairs-all_messages :
      (m : List ℕ) (xs : List Node)
      → Memᴰ m (pairs (map hash xs))
      → Memᴰ m (all_messages (pair_up digest xs))
  unfolding pair_up hash
  pairs-all_messages m [] d = elim d [ ]
  pairs-all_messages m (x ∷ []) d = elim d [ ]
  pairs-all_messages m (x ∷ y ∷ rest) (Memᴰ.head e) = Memᴰ.head e
  pairs-all_messages m (x ∷ y ∷ rest) (Memᴰ.tail d) = Memᴰ.tail (
      Memᴰ-right (messages x ++ messages y) (all_messages (pair_up digest rest))
        (pairs-all_messages m rest d))

  all_messages-pair_up :
      (m : List ℕ) (xs : List Node)
      → Memᴰ m (all_messages xs)
      → Memᴰ m (all_messages (pair_up digest xs))
  unfolding pair_up
  all_messages-pair_up m [] d = d
  all_messages-pair_up m (x ∷ []) d = d
  all_messages-pair_up m (x ∷ y ∷ rest) d =
      let below = messages x ++ messages y in
      let later = all_messages (pair_up digest rest) in
      elim (Memᴰ-append (messages x) (messages y ++ all_messages rest) d) [
        | inl l ↦ Memᴰ.tail (Memᴰ-left below later (Memᴰ-left (messages x) (messages y) l))
        | inr r ↦ elim (Memᴰ-append (messages y) (all_messages rest) r) [
          | inl l ↦ Memᴰ.tail (Memᴰ-left below later (Memᴰ-right (messages x) (messages y) l))
          | inr k ↦ Memᴰ.tail (Memᴰ-right below later (all_messages-pair_up m rest k))
        ]
      ]

  -- A message that some node of a round was made from is one of the whole tree.
  messages-build :
      (f : ℕ) (m : List ℕ) (xs : List Node) (r : Node)
      → build digest f xs ≡ some r
      → Memᴰ m (all_messages xs)
      → Memᴰ m (messages r)
  unfolding build
  messages-build zero m xs r p d = cc
  messages-build (suc f) m xs r p d = elim (Bool-cases (length xs == 1)) [
    | inl one ↦
        let (x, e) = single digest xs (ground arith) in
        let top : x ≡ r = ground arith in
        subst (λ k. Memᴰ m (messages k)) top
          (subst (λ k. Memᴰ m k) (append-nil (messages x))
            (subst (λ k. Memᴰ m (all_messages k)) e d))
    | inr more ↦
        messages-build f m (pair_up digest xs) r (ground arith) (all_messages-pair_up m xs d)
  ]

  build_binding :
      (f : ℕ) (xs ys : List Node) (r s : Node)
      → length xs ≡ length ys
      → All IsHash (map hash xs)
      → All IsHash (map hash ys)
      → build digest f xs ≡ some r
      → build digest f ys ≡ some s
      → hash r ≡ hash s
      → (map hash xs ≡ map hash ys) ⊎ Collision digest (messages r) (messages s)
  unfolding build
  build_binding zero xs ys r s n hx hy p q e = cc
  build_binding (suc f) xs ys r s n hx hy p q e = elim (Bool-cases (length xs == 1)) [
    | inl one ↦
        let (x, ex) = single digest xs (ground arith) in
        let (y, ey) = single digest ys (ground arith) in inl (ground arith)
    | inr more ↦
        elim (build_binding f (pair_up digest xs) (pair_up digest ys) r s
          (omega (arith, length-pair_up digest xs, length-pair_up digest ys))
          (rw map-hash-pair_up (All-level (map hash xs) hx))
          (rw map-hash-pair_up (All-level (map hash ys) hy)) (ground arith) (ground arith) e) [
            | inl same ↦
                elim (level_binding (map hash xs) (map hash ys)
                  (omega (arith, length-map xs hash, length-map ys hash)) hx hy
                  (sym (map-hash-pair_up digest xs) ∙ same ∙ map-hash-pair_up digest ys)) [
                    | inl below ↦ inl below
                    | inr (a, b, other, clash, m, m') ↦ inr (
                      a,
                      b,
                      other,
                      clash,
                      messages-build f a (pair_up digest xs) r (ground arith)
                          (pairs-all_messages a xs m),
                      messages-build f b (pair_up digest ys) s (ground arith)
                          (pairs-all_messages b ys m'),
                    )
                  ]
            | inr clash ↦ inr clash
          ]
  ]

  map-hash-block : (hs : List (List ℕ)) → map hash (map block hs) ≡ hs
  unfolding hash
  map-hash-block [] = refl
  map-hash-block (h ∷ hs) = ap (◌∷◌ h) (map-hash-block hs)

  -- Two lists of equally many 64-byte hashes whose trees have the same root hash are the same list,
  -- or some message hashed in the first tree and some message hashed in the second differ and have
  -- one digest. The digest is assumed to give 64 bytes.
  pub merkle_root_binding :
      (f : ℕ) (xs ys : List (List ℕ)) (r s : Node)
      → length xs ≡ length ys
      → All IsHash xs
      → All IsHash ys
      → merkle_root digest f xs ≡ some r
      → merkle_root digest f ys ≡ some s
      → hash r ≡ hash s
      → (xs ≡ ys) ⊎ Collision digest (messages r) (messages s)
  unfolding merkle_root
  merkle_root_binding f xs ys r s n hx hy p q e =
      elim (build_binding f (map block xs) (map block ys) r s
        (omega (arith, length-map xs block, length-map ys block)) (rw map-hash-block hx)
        (rw map-hash-block hy) p q e) [
          | inl same ↦ inl (sym (map-hash-block xs) ∙ same ∙ map-hash-block ys)
          | inr clash ↦ inr clash
        ]

-- For every digest, the trees of three blocks `a`, `b`, `c` and of two blocks, the digest of `a`
-- and `b` together and `c`, have the same root hash: a last block without a neighbour moves up
-- unhashed.
pub hash_of_promoted :
    (digest : List ℕ → List ℕ) (a b c : List ℕ)
    → (r : Node) × (s : Node) × (merkle_root digest 3 (a ∷ b ∷ c ∷ []) ≡ some r)
      × (merkle_root digest 2 (digest (a ++ b) ∷ c ∷ []) ≡ some s)
      × (hash r ≡ hash s)
unfolding merkle_root build pair_up hash
hash_of_promoted digest a b c = (_, _, refl, refl, refl)
