-- ===== src/KeyShare/Sets.antt =====
-- `std::set` of texts, as helloworld/greeter_client.cc uses it: an ordered list without repetition.
use logger_verifier.KeyShare.Text.{Order, before, same, behind, compare, insert}
use logger_verifier.Base.{
  ℕ, suc, ◌≤◌, ◌≡◌, refl, sym, subst, ◌⊎◌, inl, inr, List, [], ◌∷◌, arith, length, All,
}

abbrev pub IsBelow : List ℕ → List (List ℕ) → Type 0
IsBelow x [] = Unit
IsBelow x (y ∷ ys) = compare x y ≡ before

-- Each text comes before the next.
abbrev pub IsSorted : List (List ℕ) → Type 0
IsSorted [] = Unit
IsSorted (x ∷ xs) = IsBelow x xs × IsSorted xs

compare-behind : (xs ys : List ℕ) → compare xs ys ≡ behind → compare ys xs ≡ before
unfolding compare
compare-behind [] [] h = cc
compare-behind [] (y ∷ ys) h = cc
compare-behind (x ∷ xs) [] h = cc
compare-behind (x ∷ xs) (y ∷ ys) h = let rest = compare-behind xs ys in ground arith

Order-cases : (o : Order) → (o ≡ before) ⊎ ((o ≡ same) ⊎ (o ≡ behind))
Order-cases before = inl refl
Order-cases same = inr (inl refl)
Order-cases behind = inr (inr refl)

insert-nil : (x : List ℕ) → insert x [] ≡ x ∷ []
unfolding insert
insert-nil x = refl

-- What `insert` finds at the head of a set.
insert-cases :
    (x y : List ℕ) (ys : List (List ℕ))
    → ((compare x y ≡ before) × (insert x (y ∷ ys) ≡ x ∷ y ∷ ys))
      ⊎ ((insert x (y ∷ ys) ≡ y ∷ ys)
          ⊎ ((compare y x ≡ before) × (insert x (y ∷ ys) ≡ y ∷ insert x ys)))
unfolding insert
insert-cases x y ys = elim (Order-cases (compare x y)) [
  | inl e ↦ inl (e, ground arith)
  | inr (inl e) ↦ inr (inl (ground arith))
  | inr (inr e) ↦ inr (inr (compare-behind x y e, ground arith))
]

insert-IsBelow :
    (y x : List ℕ) (ys : List (List ℕ))
    → compare y x ≡ before
    → IsBelow y ys
    → IsBelow y (insert x ys)
insert-IsBelow y x [] e h = subst (IsBelow y) (sym (insert-nil x)) e
insert-IsBelow y x (z ∷ zs) e h = elim (insert-cases x z zs) [
  | inl (_, q) ↦ subst (IsBelow y) (sym q) e
  | inr (inl q) ↦ subst (IsBelow y) (sym q) h
  | inr (inr (_, q)) ↦ subst (IsBelow y) (sym q) h
]

pub insert-IsSorted : (x : List ℕ) (ys : List (List ℕ)) → IsSorted ys → IsSorted (insert x ys)
insert-IsSorted x [] h = subst IsSorted (sym (insert-nil x)) (tt, tt)
insert-IsSorted x (y ∷ ys) h = elim (insert-cases x y ys) [
  | inl (e, q) ↦ subst IsSorted (sym q) (e, h)
  | inr (inl q) ↦ subst IsSorted (sym q) h
  | inr (inr (e, q)) ↦
      subst IsSorted (sym q) (insert-IsBelow y x ys e h.0, insert-IsSorted x ys h.1)
]

pub insert-All :
    (P : List ℕ → Type 0) (x : List ℕ) (ys : List (List ℕ)) → P x → All P ys → All P (insert x ys)
insert-All P x [] hx h = subst (All P) (sym (insert-nil x)) (hx, tt)
insert-All P x (y ∷ ys) hx h = elim (insert-cases x y ys) [
  | inl (_, q) ↦ subst (All P) (sym q) (hx, h)
  | inr (inl q) ↦ subst (All P) (sym q) h
  | inr (inr (_, q)) ↦ subst (All P) (sym q) (h.0, insert-All P x ys hx h.1)
]

pub length-insert : (x : List ℕ) (ys : List (List ℕ)) → length (insert x ys) ≤ suc (length ys)
length-insert x [] = rw (insert-nil x) (omega arith)
length-insert x (y ∷ ys) = elim (insert-cases x y ys) [
  | inl (_, q) ↦ rw q (omega arith)
  | inr (inl q) ↦ rw q (omega arith)
  | inr (inr (_, q)) ↦ rw q (omega (arith, length-insert x ys))
]
