-- ===== src/Merkle.antt =====
-- Merkle_Tree/merkle_tree.cpp, node.h and node.cpp. The digest (`hash_sha256` of misc.h, which
-- calls the vendored picosha2) is a parameter. A string is its bytes.
pub mod Levels
pub mod Build
pub mod Binding
mod Tests
use logger_verifier.Base.{
  ℕ, zero, suc, ◌+◌, Option, none, some, List, [], ◌∷◌, ◌++◌, map, ◌==◌, if◌then◌else◌, length,
  get_elem?,
}

-- A node with its `hash`. The constructor `Node(data)` sets neither child (`block`); the tree's
-- constructor sets both of a node that combines two others.
pub data Node : Type 0 where
  block : List ℕ → Node
  combined : List ℕ → Node → Node → Node

pub hash : Node → List ℕ
hash (block h) = h
hash (combined h l r) = h

-- The hashes of the blocks under a node, from left to right.
pub leaves : Node → List (List ℕ)
leaves (block h) = h ∷ []
leaves (combined h l r) = leaves l ++ leaves r

-- `deleteTree` and `printTree` first test `left`, `right`: a child that was never set is an
-- indeterminate pointer, and reading it is undefined (`none`). `visits` is the nodes entered.
pub delete_tree : Node → Option ℕ
delete_tree (block h) = none
delete_tree (combined h l r) = elim (delete_tree l) [
  | none ↦ none
  | some i ↦ elim (delete_tree r) [ none ↦ none | some j ↦ some (i + j + 1) ]
]

module _ (digest : List ℕ → List ℕ) where
  -- The `for` loop: adjacent nodes are combined, and a last node that has no neighbour moves up.
  pub pair_up : List Node → List Node
  unfolding hash
  pair_up [] = []
  pair_up (x ∷ []) = x ∷ []
  pair_up (x ∷ y ∷ rest) = combined (digest (hash x ++ hash y)) x y ∷ pair_up rest

  -- The `while (blocks.size() != 1)` loop and `root = blocks[0]`. `none`: out of fuel.
  pub build : ℕ → List Node → Option Node
  unfolding pair_up
  build zero blocks = none
  build (suc f) blocks =
      let next = build f (pair_up blocks) in if length blocks == 1 then get_elem? blocks 0 else next

  -- `MerkleTree(blocks)` on nodes made from the given hashes.
  pub merkle_root : ℕ → List (List ℕ) → Option Node
  unfolding build
  merkle_root f hs = build f (map block hs)
