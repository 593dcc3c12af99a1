-- ===== src/Rdma/Tests.antt =====
-- Runs of the memory regions and of the choice of the device, and the theorems on them.
use file_transfer_cmd.Prelude.{List, [], arith, false, refl, some, true, ◌-◌, ◌^◌, ◌∷◌, ◌≡◌}
use file_transfer_cmd.Prelude.Int.{pos}
use file_transfer_cmd.Rdma.{Rdma, check_mr, create_mr, register_mr}
use file_transfer_cmd.Rdma.Budget.{HasAddr, HasHandle, WithinBudget, create_mr-WithinBudget}
use file_transfer_cmd.Rdma.Device.{Device, Opening, Port, choose, first_port, init_device}

abbrev two_regions : Rdma
two_regions = record {
  free_size = 40;
  mr_set =
      record { addr = 100; handle = 1; size = 10 }
      ∷ record { addr = 300; handle = 2; size = 50 }
      ∷ [];
}

two_regions-WithinBudget : WithinBudget 100 two_regions
two_regions-WithinBudget = record { small = omega arith; split = refl }

no_200 : ¬ HasAddr 200 two_regions.mr_set
no_200 h = ground arith

no_7 : ¬ HasHandle 7 two_regions.mr_set
no_7 h = ground arith

create_mr-WithinBudget_example : WithinBudget 100 (create_mr 30 200 (some 7) two_regions).1
create_mr-WithinBudget_example =
    create_mr-WithinBudget 100 30 200 (some 7) two_regions no_200 two_regions-WithinBudget

-- Two threads test the free bytes before either takes its part: the free bytes wrap.
both_fit : check_mr 30 two_regions ≡ (true, two_regions)
unfolding check_mr
both_fit = refl

overdrawn :
    (register_mr 30 400 (some 8) (register_mr 30 200 (some 7) two_regions).1).1.free_size
    ≡ 2 ^ 64 - 20
unfolding register_mr
overdrawn = refl

abbrev dead : Port
dead = record { queried = true; active = false; ethernet = true }

abbrev live : Port
live = record { queried = true; active = true; ethernet = true }

abbrev devices : List Device
devices =
    record { opened = false; queried = true; ports = live ∷ [] }
    ∷ record { opened = true; queried = true; ports = dead ∷ live ∷ [] }
    ∷ []

abbrev opening : Opening
opening = record { opened = true; gid_tbl_len = 4; pd = true }

devices-run : init_device devices opening (pos 3) ≡ some (1, 2)
unfolding init_device choose first_port
devices-run = refl
