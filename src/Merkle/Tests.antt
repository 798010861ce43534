-- ===== src/Merkle/Tests.antt =====
-- Runs of the tree, and its theorems at concrete blocks. The stand-in digest keeps the length at
-- 64.
use logger_verifier.Merkle.{
  Node, block, combined, hash, leaves, delete_tree, pair_up, build, merkle_root,
}
use logger_verifier.Merkle.Build.{leaves-merkle_root, merkle_root-empty, delete_tree-fails}
use logger_verifier.Merkle.Binding.{
  IsHash, Collision, messages, merkle_root_binding, hash_of_promoted,
}
use logger_verifier.Base.{
  ℕ, ◌+◌, ◌*◌, ◌%◌, ◌≡◌, refl, ◌⊎◌, none, some, List, [], ◌∷◌, arith, replicate, length-replicate,
}

abbrev sum_bytes : List ℕ → ℕ
sum_bytes [] = 0
sum_bytes (b ∷ bs) = b + 3 * sum_bytes bs

abbrev toy_digest : List ℕ → List ℕ
toy_digest m = replicate 64 (sum_bytes m % 256)

toy_digest-IsHash : (m : List ℕ) → IsHash (toy_digest m)
toy_digest-IsHash m = length-replicate 64 (sum_bytes m % 256)

abbrev short_digest : List ℕ → List ℕ
short_digest m = (sum_bytes m % 256) ∷ []

abbrev three : List (List ℕ)
three = (1 ∷ []) ∷ (2 ∷ []) ∷ (3 ∷ []) ∷ []

abbrev three_root : Node
three_root =
    combined (16 ∷ []) (combined (7 ∷ []) (block (1 ∷ [])) (block (2 ∷ []))) (block (3 ∷ []))

three_built : merkle_root short_digest 3 three ≡ some three_root
unfolding merkle_root build pair_up hash
three_built = refl

leaves-merkle_root_example :
    (r : Node) × (merkle_root short_digest 3 three ≡ some r) × (leaves r ≡ three)
leaves-merkle_root_example = leaves-merkle_root short_digest three (omega arith)

no_root_of_nothing : merkle_root short_digest 100 [] ≡ none
no_root_of_nothing = merkle_root-empty short_digest 100

three_nodes : delete_tree (combined (3 ∷ []) (block (1 ∷ [])) (block (2 ∷ []))) ≡ none
three_nodes = delete_tree-fails (combined (3 ∷ []) (block (1 ∷ [])) (block (2 ∷ [])))

-- A digest that gives every message the same 64 bytes, and two lists of two blocks.
abbrev constant_digest : List ℕ → List ℕ
constant_digest m = replicate 64 0

abbrev some_blocks : List (List ℕ)
some_blocks = replicate 64 7 ∷ replicate 64 8 ∷ []

abbrev other_blocks : List (List ℕ)
other_blocks = replicate 64 7 ∷ replicate 64 9 ∷ []

abbrev root_of : ℕ → Node
root_of b = combined (replicate 64 0) (block (replicate 64 7)) (block (replicate 64 b))

merkle_root_binding_example :
    (some_blocks ≡ other_blocks)
    ⊎ Collision constant_digest (messages (root_of 8)) (messages (root_of 9))
unfolding merkle_root build pair_up hash
merkle_root_binding_example =
    merkle_root_binding constant_digest (λ m. refl) 2 some_blocks other_blocks (root_of 8)
      (root_of 9) refl (refl, (refl, tt)) (refl, (refl, tt)) refl refl refl

promoted_pair :
    (r : Node) × (s : Node) × (merkle_root short_digest 3 three ≡ some r)
    × (merkle_root short_digest 2 ((7 ∷ []) ∷ (3 ∷ []) ∷ []) ≡ some s)
    × (hash r ≡ hash s)
promoted_pair = hash_of_promoted short_digest (1 ∷ []) (2 ∷ []) (3 ∷ [])
