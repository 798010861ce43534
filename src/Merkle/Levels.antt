-- ===== src/Merkle/Levels.antt =====
-- The levels of the tree as lists of hashes: what one round does to the hashes.
use logger_verifier.Merkle.{Node, hash, pair_up}
use logger_verifier.Base.{ℕ, ◌+◌, ◌/◌, ◌≡◌, refl, ap, List, [], ◌∷◌, ◌++◌, map, arith, length}

module _ (digest : List ℕ → List ℕ) where
  -- One level up.
  unfoldable pub level : List (List ℕ) → List (List ℕ)
  level [] = []
  level (x ∷ []) = x ∷ []
  level (x ∷ y ∷ rest) = digest (x ++ y) ∷ level rest

  pub map-hash-pair_up : (xs : List Node) → map hash (pair_up digest xs) ≡ level (map hash xs)
  unfolding pair_up level hash
  map-hash-pair_up [] = refl
  map-hash-pair_up (x ∷ []) = refl
  map-hash-pair_up (x ∷ y ∷ rest) = ap (◌∷◌ (digest (hash x ++ hash y))) (map-hash-pair_up rest)

  pub length-level : (hs : List (List ℕ)) → length (level hs) ≡ (length hs + 1) / 2
  unfolding level
  length-level [] = refl
  length-level (x ∷ []) = refl
  length-level (x ∷ y ∷ rest) = omega (arith, length-level rest)

  pub length-pair_up : (xs : List Node) → length (pair_up digest xs) ≡ (length xs + 1) / 2
  unfolding pair_up
  length-pair_up [] = refl
  length-pair_up (x ∷ []) = refl
  length-pair_up (x ∷ y ∷ rest) = omega (arith, length-pair_up rest)
