-- ===== src/Rdma/Device.antt =====
-- HwRdma::init: the first device with an active Ethernet port, and what can fail after that.
use file_transfer_cmd.Prelude.{
  All, Bool, Bool-cases, List, Option, Option-cases, [], ap, arith, false, if◌then◌else◌, inl, inr,
  length, none, not, refl, some, subst, suc, sym, true, ℕ, ◌&&◌, ◌++◌, ◌+◌, ◌||◌, ◌∷◌, ◌≡◌,
}
use file_transfer_cmd.Prelude.Int.{ltb_ℤ, pos, ℤ}

-- One port: ibv_query_port succeeds, and its attributes.
pub record Port : Type 0 where
  pub queried : Bool
  pub active : Bool
  pub ethernet : Bool

-- One device: ibv_open_device and ibv_query_device succeed, and its ports.
pub record Device : Type 0 where
  pub opened : Bool
  pub queried : Bool
  pub ports : List Port

-- The loop over the ports; they count from 1.
unfoldable pub first_port : List Port → ℕ → Option ℕ
first_port [] j = none
first_port (p ∷ ps) j =
    if p.queried && (p.active && p.ethernet) then some (j + 1) else first_port ps (j + 1)

-- The loop over the devices, up to the first choice.
unfoldable pub choose : List Device → ℕ → Option (ℕ × ℕ)
choose [] i = none
choose (d ∷ ds) i =
    if d.opened && d.queried
    then elim (first_port d.ports 0) [ none ↦ choose ds (i + 1) | some p ↦ some (i, p) ]
    else choose ds (i + 1)

-- What follows: the device opened again, its table of gids, the protection domain.
pub record Opening : Type 0 where
  pub opened : Bool
  pub gid_tbl_len : ℕ
  pub pd : Bool

-- `gid_idx` is an int; below 0 it is out of range.
unfoldable pub init_device : List Device → Opening → ℤ → Option (ℕ × ℕ)
init_device devs o gid_idx = elim (choose devs 0) [
  | none ↦ none
  | some choice ↦
      if not o.opened
      then none
      else if ltb_ℤ gid_idx (pos 0) || not (ltb_ℤ gid_idx (pos o.gid_tbl_len))
      then none
      else if o.pd
      then some choice
      else none
]

abbrev pub suitable : Port → Bool
suitable p = p.queried && (p.active && p.ethernet)

-- A device that the loop passes over.
abbrev pub IsPassed : Device → Type 0
IsPassed d = (d.opened && d.queried) ≡ true → All (λ p. suitable p ≡ false) d.ports

-- `d` with port `j` is the first fit of the list.
pub data FirstFit : List Device → ℕ → ℕ → Type 0 where
  here :
      (d : Device) (ds : List Device) (before after : List Port) (p : Port)
      → (d.opened && d.queried) ≡ true
      → d.ports ≡ before ++ p ∷ after
      → All (λ q. suitable q ≡ false) before
      → suitable p ≡ true
      → FirstFit (d ∷ ds) 0 (length before + 1)
  later :
      (d : Device) (ds : List Device) (i j : ℕ)
      → IsPassed d
      → FirstFit ds i j
      → FirstFit (d ∷ ds) (suc i) j

first_port-none :
    (ps : List Port) (j : ℕ) → first_port ps j ≡ none → All (λ p. suitable p ≡ false) ps
unfolding first_port
first_port-none [] j h = tt
first_port-none (p ∷ ps) j h = elim (Bool-cases (suitable p)) [
  | inl fits ↦ ground arith
  | inr unfit ↦ (unfit, first_port-none ps (j + 1) (ground arith))
]

first_port-some :
    (ps : List Port) (j k : ℕ)
    → first_port ps j ≡ some k
    → (before : List Port) × (p : Port) × (after : List Port) × (ps ≡ before ++ p ∷ after)
      × All (λ q. suitable q ≡ false) before
      × (suitable p ≡ true)
      × (k ≡ j + length before + 1)
unfolding first_port
first_port-some [] j k h = ground arith
first_port-some (p ∷ ps) j k h = elim (Bool-cases (suitable p)) [
  | inl fits ↦ ([], p, ps, refl, tt, fits, ground arith)
  | inr unfit ↦
      let (before, q, after, e, a, s, c) = first_port-some ps (j + 1) k (ground arith) in
      (p ∷ before, q, after, ap (◌∷◌ p) e, (unfit, a), s, omega (arith, c))
]

choose-from :
    (ds : List Device) (i d p : ℕ)
    → choose ds i ≡ some (d, p)
    → (m : ℕ) × (d ≡ i + m) × FirstFit ds m p
unfolding choose
choose-from [] i d p h = ground arith
choose-from (x ∷ xs) i d p h = elim (Bool-cases (x.opened && x.queried)) [
  | inr unusable ↦
      let (m, e, f) = choose-from xs (i + 1) d p (ground arith) in
      (suc m, omega (arith, e), later x xs m p (λ k. ground arith) f)
  | inl usable ↦ elim (Option-cases (first_port x.ports 0)) [
    | inl unfit ↦
        let (m, e, f) = choose-from xs (i + 1) d p (ground arith) in
        (suc m, omega (arith, e), later x xs m p (λ k. first_port-none x.ports 0 unfit) f)
    | inr (j, fits) ↦
        let (before, q, after, e, a, s, c) = first_port-some x.ports 0 j fits in
        let port : p ≡ length before + 1 = ground arith in
        (
          0,
          ground arith,
          subst (λ k. FirstFit (x ∷ xs) 0 k) (sym port) (here x xs before after q usable e a s),
        )
  ]
]

chosen :
    (devs : List Device) (o : Opening) (gid_idx : ℤ) {c : ℕ × ℕ}
    → init_device devs o gid_idx ≡ some c
    → choose devs 0 ≡ some c
unfolding init_device
chosen devs o gid_idx h = ground arith

-- The device and the port that init takes are the first fit: an earlier device could not be opened
-- or queried or has no active Ethernet port, and neither has an earlier port of the device.
pub init_device-FirstFit :
    (devs : List Device) (o : Opening) (gid_idx : ℤ) (d p : ℕ)
    → init_device devs o gid_idx ≡ some (d, p)
    → FirstFit devs d p
init_device-FirstFit devs o gid_idx d p h =
    let (m, e, f) = choose-from devs 0 d p (chosen devs o gid_idx h) in
    subst (λ k. FirstFit devs k p) (omega (arith, e)) f
