-- ===== src/Rdma.antt =====
-- HwRdma (HwRdma.h): the choice of the device and its port, and the memory regions with the budget
-- of free bytes. What ibverbs and the allocator answer is given to each operation.
pub mod Device
pub mod Budget
mod Tests
use file_transfer_cmd.Prelude.{
  Bool, List, Option, [], false, if◌then◌else◌, leb, ltb, none, some, true, ℕ, ◌-◌, ◌==◌, ◌^◌, ◌∷◌,
}
use file_transfer_cmd.Prelude.Words.{add64, sub64}

pub record Region : Type 0 where
  pub addr : ℕ
  pub handle : ℕ
  pub size : ℕ

-- `mr_set` in the order of its keys, and `free_size`, whose value 2 ^ 64 - 1 stands for "not set".
pub record Rdma : Type 0 where
  pub free_size : ℕ
  pub mr_set : List Region

-- std::map::insert: a key that is there stays.
pub insert_region : Region → List Region → List Region
insert_region r [] = r ∷ []
insert_region r (x ∷ xs) =
    if ltb r.addr x.addr
    then r ∷ x ∷ xs
    else if r.addr == x.addr
    then x ∷ xs
    else x ∷ insert_region r xs

-- The part of create_mr before the mutex is taken: the test of the size and of the free bytes.
pub check_mr : ℕ → Rdma → Bool × Rdma
check_mr size s =
    if size == 0
    then (false, s)
    else (let room : ℕ = if s.free_size == 2 ^ 64 - 1 then size else s.free_size in
        (leb size room, record s { free_size = room }))

-- The rest, with `addr` the buffer of operator new and `handle` the answer of ibv_reg_mr.
pub register_mr : ℕ → ℕ → Option ℕ → Rdma → Bool × Rdma
register_mr size addr none s = (false, s)
register_mr size addr (some h) s = (
  true,
  record {
    free_size = sub64 s.free_size size;
    mr_set = insert_region (record { addr = addr; handle = h; size = size }) s.mr_set;
  },
)

-- The whole, when no other thread comes between.
pub create_mr : ℕ → ℕ → Option ℕ → Rdma → Bool × Rdma
create_mr size addr handle s =
    let (fits, s') = check_mr size s in
    if fits then register_mr size addr handle s' else (false, s')

-- The first region with this handle, and the others.
pub take_region : ℕ → List Region → Option (Region × List Region)
take_region h [] = none
take_region h (x ∷ xs) =
    if x.handle == h
    then some (x, xs)
    else elim (take_region h xs) [ none ↦ none | some (r, rest) ↦ some (r, x ∷ rest) ]

pub destroy_mr : ℕ → Rdma → Bool × Rdma
destroy_mr h s = elim (take_region h s.mr_set) [
  | none ↦ (false, s)
  | some (r, rest) ↦ (true, record { free_size = add64 s.free_size r.size; mr_set = rest })
]
