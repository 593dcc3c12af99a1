-- ===== src/Setup/Pool.antt =====
-- StreamControl::createBufferPool: the buffers cut the memory region into whole blocks.
use file_transfer_cmd.Prelude.{
  Bool-cases, List, [], ap, arith, inl, inr, leb, length, refl, suc, zero, ℕ, ◌*◌, ◌+◌, ◌<◌, ◌∷◌,
  ◌≡◌, ◌≤◌,
}
use file_transfer_cmd.Setup.{buffers_from, create_buffer_pool}
use file_transfer_cmd.Stream.Send.{start}
use native.Mathlib.Nat.{add-mul}

-- Offsets `block_size` apart from `loc` on, each buffer within the region, and no room for one more.
abbrev pub Tiles : ℕ → ℕ → ℕ → List ℕ → Type 0
Tiles loc block_size size [] = size < loc + block_size
Tiles loc block_size size (x ∷ xs) =
    (x ≡ loc) × (loc + block_size ≤ size) × Tiles (loc + block_size) block_size size xs

buffers_from-Tiles :
    (fuel loc block_size size : ℕ)
    → 0 < block_size
    → size < fuel + loc
    → Tiles loc block_size size (buffers_from fuel loc block_size size)
unfolding buffers_from
buffers_from-Tiles zero loc block_size size pos_b h = omega arith
buffers_from-Tiles (suc fuel) loc block_size size pos_b h =
    elim (Bool-cases (leb (loc + block_size) size)) [
      | inl fits ↦ rw fits (
        refl,
        ground arith,
        buffers_from-Tiles fuel (loc + block_size) block_size size pos_b (omega arith),
      )
      | inr full ↦ rw full (ground arith)
    ]

-- For blocks of at least one byte the loop ends: its buffers lie side by side from the start of the
-- region on, each within it, and what is left at the end is smaller than a block.
pub create_buffer_pool-Tiles :
    (block_size size : ℕ)
    → 0 < block_size
    → Tiles 0 block_size size (create_buffer_pool block_size size)
unfolding create_buffer_pool
create_buffer_pool-Tiles block_size size h =
    buffers_from-Tiles (size + 1) 0 block_size size h (omega arith)

Tiles-length :
    (loc block_size num size : ℕ) (xs : List ℕ)
    → 0 < block_size
    → size ≡ loc + num * block_size
    → Tiles loc block_size size xs
    → length xs ≡ num
Tiles-length loc block_size zero size [] pos_b e t = refl
Tiles-length loc block_size (suc num) size [] pos_b e t =
    absurd (omega (arith, e, t, add-mul 1 num block_size))
Tiles-length loc block_size zero size (x ∷ xs) pos_b e (start, fits, t) =
    absurd (omega (arith, e, fits))
Tiles-length loc block_size (suc num) size (x ∷ xs) pos_b e (start, fits, t) = ap suc (
    Tiles-length (loc + block_size) block_size num size xs pos_b
      (omega (arith, e, add-mul 1 num block_size)) t)

-- A region of `num` blocks, as bindMemoryRegion asks for, gives `num` buffers.
pub length-create_buffer_pool :
    (block_size num : ℕ)
    → 0 < block_size
    → length (create_buffer_pool block_size (num * block_size)) ≡ num
length-create_buffer_pool block_size num h =
    Tiles-length 0 block_size num (num * block_size)
      (create_buffer_pool block_size (num * block_size)) h (omega arith)
      (create_buffer_pool-Tiles block_size (num * block_size) h)
