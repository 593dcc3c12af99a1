-- ===== src/Command.antt =====
-- client.cpp: the commands of the master. Each connection gives one `cmd_info`, a block of bytes that
-- starts with the kind of the command; the results of `recv` are given.
pub mod Pieces
mod Tests
use file_transfer_cmd.Prelude.{
  Bool, List, [], drop, false, get_or, if◌then◌else◌, length, ltb, replicate, take, true, ℕ, ◌*◌,
  ◌++◌, ◌+◌, ◌==◌, ◌^◌, ◌∷◌,
}

-- One `recv`: bytes, or 0 or an error.
pub data Recv : Type 0 where
  bytes : List ℕ → Recv
  broken_off : Recv

-- A write into the middle of the block.
pub write_at : ℕ → List ℕ → List ℕ → List ℕ
write_at total piece block = take total block ++ piece ++ drop (total + length piece) block

-- The loop that fills the block, and what it holds in the end; a failure ends the loop.
pub receive_block : ℕ → ℕ → List Recv → List ℕ → List ℕ
receive_block size total [] block = block
receive_block size total (broken_off ∷ rs) block = block
receive_block size total (bytes piece ∷ rs) block =
    let rest = receive_block size (total + length piece) rs (write_at total piece block) in
    if ltb total size then (if length piece == 0 then block else rest) else block

pub data Command : Type 0 where
  start_with_dcqcn start_with_lucp end unknown : Command

-- `cmd_type` is an int in little-endian order.
pub cmd_type : List ℕ → Command
cmd_type block =
    let kind =
      get_or block 0 0
      + 2 ^ 8 * get_or block 1 0
      + 2 ^ 16 * get_or block 2 0
      + 2 ^ 24 * get_or block 3 0 in
    if kind == 1
    then start_with_dcqcn
    else if kind == 2
    then start_with_lucp
    else if kind == 0
    then end
    else unknown

-- One connection, from the zeroed block on.
pub on_connection : ℕ → List Recv → Command
on_connection size reads = cmd_type (receive_block size 0 reads (replicate size 0))

-- The loop over the connections: the transfers started, `true` for LUCP, and whether it has ended.
pub serve_commands : ℕ → List (List Recv) → List Bool × Bool
serve_commands size [] = ([], false)
serve_commands size (c ∷ cs) =
    let (started, ended) = serve_commands size cs in
    elim (on_connection size c) [
      | start_with_dcqcn ↦ (false ∷ started, ended)
      | start_with_lucp ↦ (true ∷ started, ended)
      | end ↦ ([], true)
      | unknown ↦ (started, ended)
    ]
