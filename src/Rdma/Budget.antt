-- ===== src/Rdma/Budget.antt =====
-- HwRdma::create_mr and destroy_mr: free bytes and registered bytes make up the budget.
use file_transfer_cmd.Prelude.{
  Bool-cases, List, Option, Option-cases, [], arith, inl, inr, none, refl, some, true, ℕ, ◌+◌, ◌-◌,
  ◌<◌, ◌==◌, ◌^◌, ◌∷◌, ◌≡◌, ◌≤◌, ◌⊎◌,
}
use file_transfer_cmd.Rdma.{
  Rdma, Region, check_mr, create_mr, destroy_mr, insert_region, register_mr, take_region,
}

abbrev pub total_size : List Region → ℕ
total_size [] = 0
total_size (x ∷ xs) = x.size + total_size xs

abbrev pub HasAddr : ℕ → List Region → Type 0
HasAddr a [] = ⊥
HasAddr a (x ∷ xs) = (x.addr ≡ a) ⊎ HasAddr a xs

abbrev pub HasHandle : ℕ → List Region → Type 0
HasHandle h [] = ⊥
HasHandle h (x ∷ xs) = (x.handle ≡ h) ⊎ HasHandle h xs

-- The server's budget, which is below the value for "not set".
pub record WithinBudget (budget : ℕ) (s : Rdma) : Type 0 where
  pub small : budget < 2 ^ 64 - 1
  pub split : s.free_size + total_size s.mr_set ≡ budget

insert_region-size :
    (r : Region) (xs : List Region)
    → ¬ HasAddr r.addr xs
    → total_size (insert_region r xs) ≡ r.size + total_size xs
unfolding insert_region
insert_region-size r [] h = refl
insert_region-size r (x ∷ xs) h =
    ground (arith, insert_region-size r xs (λ k. h (inr k)), λ (e : x.addr ≡ r.addr). h (inl e))

take_region-size :
    (h : ℕ) (xs : List Region) {r : Region} {rest : List Region}
    → take_region h xs ≡ some (r, rest)
    → total_size xs ≡ r.size + total_size rest
unfolding take_region
take_region-size h [] e = ground arith
take_region-size h (x ∷ xs) {r} {rest} e = elim (Bool-cases (x.handle == h)) [
  | inl same ↦ ground arith
  | inr other ↦ elim (Option-cases (take_region h xs)) [
    | inl gone ↦ ground arith
    | inr ((r', rest'), e') ↦ ground (arith, take_region-size h xs e')
  ]
]

take_region-insert_region :
    (r : Region) (xs : List Region)
    → ¬ HasAddr r.addr xs
    → ¬ HasHandle r.handle xs
    → take_region r.handle (insert_region r xs) ≡ some (r, xs)
unfolding take_region insert_region
take_region-insert_region r [] a h = ground arith
take_region-insert_region r (x ∷ xs) a h = ground (
  arith,
  take_region-insert_region r xs (λ k. a (inr k)) (λ k. h (inr k)),
  λ (e : x.addr ≡ r.addr). a (inl e),
  λ (e : x.handle ≡ r.handle). h (inl e),
)

create_mr-split :
    (budget size addr : ℕ) (handle : Option ℕ) (s : Rdma)
    → ¬ HasAddr addr s.mr_set
    → WithinBudget budget s
    → let s' = (create_mr size addr handle s).1 in s'.free_size + total_size s'.mr_set ≡ budget
unfolding create_mr check_mr register_mr
create_mr-split budget size addr none s new w = ground (arith, w.split, w.small)
create_mr-split budget size addr (some h) s new w =
    let r : Region = record { addr = addr; handle = h; size = size } in
    ground (arith, w.split, w.small, insert_region-size r s.mr_set new)

-- With a buffer at a new address and no other thread between its parts, create_mr keeps the budget, on success as on every failure: the
-- free bytes and those of the registered regions make up the budget.
pub create_mr-WithinBudget :
    (budget size addr : ℕ) (handle : Option ℕ) (s : Rdma)
    → ¬ HasAddr addr s.mr_set
    → WithinBudget budget s
    → WithinBudget budget (create_mr size addr handle s).1
create_mr-WithinBudget budget size addr handle s new w = record {
  small = w.small;
  split = create_mr-split budget size addr handle s new w;
}

-- A region that is created in a free budget and destroyed again leaves what was there.
pub destroy_mr-create_mr :
    (budget size addr h : ℕ) (s : Rdma)
    → ¬ HasAddr addr s.mr_set
    → ¬ HasHandle h s.mr_set
    → WithinBudget budget s
    → 0 < size
    → size ≤ s.free_size
    → destroy_mr h (create_mr size addr (some h) s).1 ≡ (true, s)
unfolding create_mr check_mr register_mr destroy_mr
destroy_mr-create_mr budget size addr h s new_addr new_handle w pos_size room =
    let r : Region = record { addr = addr; handle = h; size = size } in
    let e : take_region h (insert_region r s.mr_set) ≡ some (r, s.mr_set) =
      take_region-insert_region r s.mr_set new_addr new_handle in
    ground (arith, w.split, w.small, e)

-- destroy_mr keeps the budget, whether it finds the region or not: the free bytes and those of the
-- regions that are left make it up.
pub destroy_mr-WithinBudget :
    (budget h : ℕ) (s : Rdma) → WithinBudget budget s → WithinBudget budget (destroy_mr h s).1
unfolding destroy_mr
destroy_mr-WithinBudget budget h s w = elim (Option-cases (take_region h s.mr_set)) [
  | inl gone ↦ rw (gone, destroy_mr) w
  | inr ((r, rest), e) ↦
      rw (e, destroy_mr)
        (record {
          small = w.small;
          split = omega (arith, w.small, w.split, take_region-size h s.mr_set e);
        })
]

pub create_mr-succeeds :
    (budget size addr h : ℕ) (s : Rdma)
    → WithinBudget budget s
    → 0 < size
    → size ≤ s.free_size
    → (create_mr size addr (some h) s).0 ≡ true
unfolding create_mr check_mr register_mr
create_mr-succeeds budget size addr h s w pos_size room = ground (arith, w.split, w.small)
