-- ===== src/Doubles.antt =====
-- The doubles of the source, as the operations that it uses. Of their order the theorems take only
-- what IEEE 754 gives for all values, NaN included.
pub mod Naturals
use file_transfer_cmd.Prelude.{Bool, Bool-cases, false, if◌then◌else◌, inl, inr, true, ℕ, ◌≡◌}

pub record Doubles {ℓ} (D : Type ℓ) : Type ℓ where
  pub lt : D → D → Bool
  pub le : D → D → Bool
  pub add : D → D → D
  pub sub : D → D → D
  pub mul : D → D → D
  pub div : D → D → D
  pub fabs : D → D
  pub of_nat : ℕ → D
  -- 1e-6
  pub epsilon : D

-- `<` never holds of a value and itself, nor in both directions.
pub record DoublesLaws {ℓ} {D : Type ℓ} (d : Doubles D) : Type ℓ where
  pub irrefl : (x : D) → d.lt x x ≡ false
  pub asym : (x y : D) → d.lt x y ≡ true → d.lt y x ≡ false

-- std::min
abbrev pub dmin {ℓ} : {D : Type ℓ} → Doubles D → D → D → D
dmin d a b = if d.lt b a then b else a

-- `a` is not above `b`; of numbers that are no NaN this is `a <= b`.
abbrev pub NotAbove {ℓ} : {D : Type ℓ} → Doubles D → D → D → Type 0
NotAbove d a b = d.lt b a ≡ false

pub dmin-NotAbove {ℓ} :
    {D : Type ℓ} (d : Doubles D) → DoublesLaws d → (a b : D) → NotAbove d (dmin d a b) a
dmin-NotAbove d l a b = elim (Bool-cases (d.lt b a)) [
  | inl less ↦ rw less (l.asym b a less)
  | inr more ↦ rw more (l.irrefl a)
]
