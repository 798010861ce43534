-- ===== src/Merkle/Build.antt =====
-- The constructor ends on every list of blocks but the empty one, and keeps the blocks in order.
use logger_verifier.Merkle.{Node, block, combined, leaves, delete_tree, pair_up, build, merkle_root}
use logger_verifier.Merkle.Levels.{length-pair_up}
use logger_verifier.Base.{
  ℕ, zero, suc, ◌≤◌, ◌<◌, ◌≡◌, refl, sym, ap, ◌∙◌, inl, inr, none, some, List, [], ◌∷◌, ◌++◌, map,
  append-nil, append_assoc, arith, ◌==◌, Bool-cases, length, length-map,
}

-- The blocks under a list of nodes.
unfoldable pub all_leaves : List Node → List (List ℕ)
unfolding leaves
all_leaves [] = []
all_leaves (x ∷ xs) = leaves x ++ all_leaves xs

module _ (digest : List ℕ → List ℕ) where
  all_leaves-pair_up : (xs : List Node) → all_leaves (pair_up digest xs) ≡ all_leaves xs
  unfolding all_leaves pair_up
  all_leaves-pair_up [] = refl
  all_leaves-pair_up (x ∷ []) = refl
  all_leaves-pair_up (x ∷ y ∷ rest) =
      rw (all_leaves-pair_up rest) (append_assoc (leaves x) (leaves y) (all_leaves rest))

  pub single : (xs : List Node) → length xs ≡ 1 → (x : Node) × (xs ≡ x ∷ [])
  single [] h = absurd (omega arith)
  single (x ∷ []) h = (x, refl)
  single (x ∷ y ∷ rest) h = absurd (omega arith)

  pub build_finds :
      (f : ℕ) (xs : List Node)
      → 0 < length xs
      → length xs ≤ f
      → (r : Node) × (build digest f xs ≡ some r) × (leaves r ≡ all_leaves xs)
  unfolding build
  build_finds zero xs h k = absurd (omega arith)
  build_finds (suc f) xs h k = elim (Bool-cases (length xs == 1)) [
    | inl one ↦
        let (x, e) = single xs (ground arith) in
        rw e (x, refl, sym (unfold all_leaves in append-nil (leaves x)))
    | inr more ↦
        let (r, found, same) =
          build_finds f (pair_up digest xs) (ground (arith, length-pair_up digest xs))
            (ground (arith, length-pair_up digest xs)) in
        (r, rw (more) found, same ∙ all_leaves-pair_up xs)
  ]

  all_leaves-blocks : (hs : List (List ℕ)) → all_leaves (map block hs) ≡ hs
  unfolding all_leaves
  all_leaves-blocks [] = refl
  all_leaves-blocks (h ∷ hs) = ap (◌∷◌ h) (all_leaves-blocks hs)

  -- For one block or more the constructor ends, and its root has exactly the given blocks under it,
  -- in their order; as many rounds as there are blocks are enough.
  pub leaves-merkle_root :
      (hs : List (List ℕ))
      → 0 < length hs
      → (r : Node) × (merkle_root digest (length hs) hs ≡ some r) × (leaves r ≡ hs)
  unfolding merkle_root
  leaves-merkle_root hs h =
      let (r, found, same) =
        build_finds (length hs) (map block hs) (rw length-map h)
          (omega (arith, length-map hs block)) in
      (r, found, same ∙ all_leaves-blocks hs)

  -- On no block at all the constructor's loop never ends: no number of rounds gives a root.
  pub merkle_root-empty : (f : ℕ) → merkle_root digest f [] ≡ none
  unfolding merkle_root build pair_up
  merkle_root-empty zero = refl
  merkle_root-empty (suc f) = merkle_root-empty f

-- The destructor's `deleteTree` reads a child pointer that was never set, whatever the tree.
pub delete_tree-fails : (n : Node) → delete_tree n ≡ none
unfolding delete_tree
delete_tree-fails (block h) = refl
delete_tree-fails (combined h l r) = rw (delete_tree-fails l)
