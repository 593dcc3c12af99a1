-- ===== src/Switch/Path.antt =====
-- switch1.cpp: what a rate packet says after its path, and where its flow is counted.
use file_transfer_cmd.Prelude.{
  Bool-cases, List, [], arith, get_elem?, if◌then◌else◌, inl, inr, length, refl, some, subst, suc,
  zero, ℕ, ◌+◌, ◌<◌, ◌==◌, ◌^◌, ◌∙◌, ◌∷◌, ◌≡◌,
}
use file_transfer_cmd.Doubles.{Doubles}
use file_transfer_cmd.Prelude.Words.{add32}
use file_transfer_cmd.Swap.{Packet}
use file_transfer_cmd.Switch.{Cache, is_worse, mark, pass}

-- The packet has kept its values, or it names a switch of the path and carries that switch's.
pub data Names {D : Type 0} (cs : List (Cache D)) (c : ℕ) (p p' : Packet D) : Type 0 where
  kept : p'.r_s ≡ p.r_s → p'.o_s ≡ p.o_s → p'.g_s ≡ p.g_s → Names cs c p p'
  named :
      (i : ℕ) (x : Cache D)
      → get_elem? cs i ≡ some x
      → p'.r_s ≡ c + i + 1
      → p'.o_s ≡ x.o_l
      → p'.g_s ≡ x.g_l
      → Names cs c p p'

-- One more flow at the switch with the number `r_t`, none at the others.
abbrev pub Counted : {D : Type 0} → ℕ → ℕ → List (Cache D) → List (Cache D) → Type 0
Counted c r_t [] [] = Unit {0}
Counted c r_t [] (y ∷ ys) = ⊥
Counted c r_t (x ∷ xs) [] = ⊥
Counted c r_t (x ∷ xs) (y ∷ ys) =
    (y.n_l ≡ (if c + 1 == r_t then add32 x.n_l 1 else x.n_l)) × Counted (c + 1) r_t xs ys

module _ {D : Type 0} (d : Doubles D) where
  mark-r_c : (c : Cache D) (p : Packet D) → p.r_c + 1 < 2 ^ 8 → (mark d c p).1.r_c ≡ p.r_c + 1
  unfolding mark
  mark-r_c c p h = omega arith

  mark-r_t : (c : Cache D) (p : Packet D) → (mark d c p).1.r_t ≡ p.r_t
  unfolding mark
  mark-r_t c p = refl

  mark-Names :
      (c : Cache D) (p : Packet D) → p.r_c + 1 < 2 ^ 8 → Names (c ∷ []) p.r_c p (mark d c p).1
  unfolding mark
  mark-Names c p h = elim (Bool-cases (is_worse d c p)) [
    | inl worse ↦ named 0 c refl (rw worse (omega arith)) (rw worse refl) (rw worse refl)
    | inr calm ↦ kept (rw calm refl) (rw calm refl) (rw calm refl)
  ]

  -- A packet that has passed fewer than 256 switches has their number in r_c. It names no switch
  -- and has kept its overload and fair rate, or r_s is the number of a switch on the path and the
  -- packet carries the overload and the fair rate of that switch.
  pub pass-Names :
      (cs : List (Cache D)) (p : Packet D)
      → p.r_c + length cs < 2 ^ 8
      → ((pass d cs p).1.r_c ≡ p.r_c + length cs) × Names cs p.r_c p (pass d cs p).1
  unfolding pass
  pass-Names [] p h = (omega arith, kept refl refl refl)
  pass-Names (c ∷ cs) p h =
      let p' : Packet D = (mark d c p).1 in
      let r : p'.r_c ≡ p.r_c + 1 = mark-r_c c p (omega arith) in
      let (n, names) = pass-Names cs p' (omega (arith, r)) in
      (
        omega (arith, n, r),
        Names-cons c cs p (pass d cs p').1 r names (mark-Names c p (omega arith)),
      )
    where
      Names-cons :
          (c : Cache D) (cs : List (Cache D)) (p p'' : Packet D)
          → (mark d c p).1.r_c ≡ p.r_c + 1
          → Names cs (mark d c p).1.r_c (mark d c p).1 p''
          → Names (c ∷ []) p.r_c p (mark d c p).1
          → Names (c ∷ cs) p.r_c p p''
      Names-cons c cs p p'' r (named i x e a b f) first =
          named (suc i) x e (omega (arith, a, r)) b f
      Names-cons c cs p p'' r (kept a b f) (kept a' b' f') = kept (a ∙ a') (b ∙ b') (f ∙ f')
      Names-cons c cs p p'' r (kept a b f) (named zero x e a' b' f') =
          named zero x e (a ∙ a') (b ∙ b') (f ∙ f')
      Names-cons c cs p p'' r (kept a b f) (named (suc i) x e a' b' f') = ground arith

  -- On a path of fewer than 256 switches from the sender, the flow is counted at the switch whose
  -- number the sender has put into r_t, and at no other.
  pub pass-Counted :
      (cs : List (Cache D)) (p : Packet D)
      → p.r_c + length cs < 2 ^ 8
      → Counted p.r_c p.r_t cs (pass d cs p).0
  unfolding pass mark
  pass-Counted [] p h = tt
  pass-Counted (c ∷ cs) p h =
      let p' : Packet D = (mark d c p).1 in
      let r : p'.r_c ≡ p.r_c + 1 = mark-r_c c p (omega arith) in
      (
        ground (arith, r),
        subst (λ k. Counted k p.r_t cs (pass d cs p').0) r (pass-Counted cs p' (omega (arith, r))),
      )
