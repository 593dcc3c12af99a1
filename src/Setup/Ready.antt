-- ===== src/Setup/Ready.antt =====
-- StreamControl: the receiver's buffers, from the memory region to the posted receive requests.
use file_transfer_cmd.Prelude.{
  Bool, ap, length, refl, some, suc, true, zero, ℕ, ◌*◌, ◌<◌, ◌∙◌, ◌≡◌, ◌≤◌,
}
use file_transfer_cmd.Rdma.{Rdma}
use file_transfer_cmd.Rdma.Budget.{WithinBudget, create_mr-succeeds}
use file_transfer_cmd.Setup.{bind_memory_region, create_buffer_pool, prepare_recv}
use file_transfer_cmd.Setup.Pool.{length-create_buffer_pool}
use file_transfer_cmd.Stream.Send.Order.{first_pass, run_from}
use native.Mathlib.Nat.{mul_comm}

prepare_recv-all :
    (posts : ℕ → Bool) (i n : ℕ)
    → ((j : ℕ) → posts j ≡ true)
    → prepare_recv posts i n ≡ (run_from (λ j. j) i n, true)
unfolding prepare_recv
prepare_recv-all posts i zero h = refl
prepare_recv-all posts i (suc n) h = rw (h i) (rw (prepare_recv-all posts (suc i) n h) refl)

-- A server with room for the blocks of a connection, at least one of at least one byte, gets its
-- region; the pool then has a buffer for each block, and if every receive request can be posted,
-- each buffer is posted once, in order, and prepareRecv succeeds.
pub receiver_ready :
    (budget block_size block_num addr h : ℕ) (s : Rdma) (posts : ℕ → Bool)
    → WithinBudget budget s
    → 0 < block_size
    → 0 < block_size * block_num
    → block_size * block_num ≤ s.free_size
    → ((j : ℕ) → posts j ≡ true)
    → ((bind_memory_region block_size block_num addr (some h) s).0 ≡ true)
      × (prepare_recv posts 0 (length (create_buffer_pool block_size (block_size * block_num)))
          ≡ (first_pass block_num, true))
unfolding bind_memory_region
receiver_ready budget block_size block_num addr h s posts w pos_b pos_size room ok =
    let size : length (create_buffer_pool block_size (block_size * block_num)) ≡ block_num =
      ap (λ k. length (create_buffer_pool block_size k)) (mul_comm block_size block_num)
      ∙ length-create_buffer_pool block_size block_num pos_b in
    (
      create_mr-succeeds budget (block_size * block_num) addr h s w pos_size room,
      ap (prepare_recv posts 0) size ∙ prepare_recv-all posts 0 block_num ok,
    )
