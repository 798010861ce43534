-- ===== src/Base/Run.antt =====
-- Code that changes a state and may go wrong: `none` is undefined behaviour or an abort.
use mathlib.Core.Option.{Option, none, some}

abbrev pub Run : Type 0 → Type 0 → Type 0
Run W A = W → Option (A × W)

abbrev pub pure : {W A : Type 0} → A → Run W A
pure a w = some (a, w)

abbrev pub fault : {W A : Type 0} → Run W A
fault w = none

infixl 5 ◌>>=◌ ◌>>◌
abbrev pub ◌>>=◌ : {W A B : Type 0} → Run W A → (A → Run W B) → Run W B
◌>>=◌ m f w = elim (m w) [ none ↦ none | some (a, w') ↦ f a w' ]

abbrev pub ◌>>◌ : {W B : Type 0} → Run W (Unit {0}) → Run W B → Run W B
m >> k = m >>= λ _. k

-- A value that may be missing.
abbrev pub need : {W A : Type 0} → Option A → Run W A
need none w = none
need (some a) w = some (a, w)
