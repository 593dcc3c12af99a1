-- ===== src/Setup.antt =====
-- StreamControl: the setup of a connection. The queue pair's data, its exchange between the peers in
-- network byte order, the block size that both use, and the pool of buffers.
pub mod Handshake
pub mod Pool
pub mod Socket
pub mod QueuePair
pub mod Ready
mod Tests
use file_transfer_cmd.Prelude.{
  Bool, List, Option, [], false, if◌then◌else◌, leb, not, suc, true, zero, ℕ, ◌%◌, ◌*◌, ◌+◌, ◌/◌,
  ◌^◌, ◌∷◌,
}
use file_transfer_cmd.Rdma.{Rdma, create_mr}

-- `QPInfo`: the sizes are uint16_t and uint32_t.
pub record QpInfo : Type 0 where
  pub lid : ℕ
  pub qp_num : ℕ
  pub block_num : ℕ
  pub block_size : ℕ
  pub gid : List ℕ

-- What a peer's own configuration and device give.
pub record Local : Type 0 where
  pub lid : ℕ
  pub qp_num : ℕ
  pub block_num : ℕ
  pub block_size : ℕ
  pub gid : List ℕ

-- htons and htonl on a little-endian machine swap the bytes, and so do ntohs and ntohl.
pub swap16 : ℕ → ℕ
swap16 x = x % 2 ^ 8 * 2 ^ 8 + x / 2 ^ 8 % 2 ^ 8

pub swap32 : ℕ → ℕ
swap32 x =
    x % 2 ^ 8 * 2 ^ 24
    + x / 2 ^ 8 % 2 ^ 8 * 2 ^ 16
    + x / 2 ^ 16 % 2 ^ 8 * 2 ^ 8
    + x / 2 ^ 24 % 2 ^ 8

-- The part of createLucpContext that fills `local_qp_info`.
pub local_qp_info : Bool → Local → QpInfo
local_qp_info use_message l = record {
  lid = l.lid;
  qp_num = l.qp_num;
  block_num = l.block_num;
  block_size = if use_message then l.block_size else 64;
  gid = l.gid;
}

pub to_net : QpInfo → QpInfo
to_net q = record {
  lid = swap16 q.lid;
  qp_num = swap32 q.qp_num;
  block_num = swap32 q.block_num;
  block_size = swap32 q.block_size;
  gid = q.gid;
}

pub from_net : QpInfo → QpInfo
from_net q = record {
  lid = swap16 q.lid;
  qp_num = swap32 q.qp_num;
  block_num = swap32 q.block_num;
  block_size = swap32 q.block_size;
  gid = q.gid;
}

-- `block_size` of the object after connectPeer; `remote` is `remote_qp_info`.
pub agreed_block_size : Bool → Bool → Local → QpInfo → ℕ
agreed_block_size server_mode use_message l remote =
    if not server_mode
    then 1024 * remote.block_size
    else 1024 * (if use_message then l.block_size else 64)

-- createBufferPool: the offsets of the buffers, on fuel.
pub buffers_from : ℕ → ℕ → ℕ → ℕ → List ℕ
buffers_from zero loc block_size size = []
buffers_from (suc fuel) loc block_size size =
    let rest = buffers_from fuel (loc + block_size) block_size size in
    if leb (loc + block_size) size then loc ∷ rest else []

pub create_buffer_pool : ℕ → ℕ → List ℕ
create_buffer_pool block_size size = buffers_from (size + 1) 0 block_size size

-- bindMemoryRegion asks for a region of all the blocks.
pub bind_memory_region : ℕ → ℕ → ℕ → Option ℕ → Rdma → Bool × Rdma
bind_memory_region block_size block_num addr handle s =
    create_mr (block_size * block_num) addr handle s

-- prepareRecv from buffer `i` on: the buffers posted, and whether all were; `posts` is the success
-- of ibv_post_recv for a buffer.
pub prepare_recv : (ℕ → Bool) → ℕ → ℕ → List ℕ × Bool
prepare_recv posts i zero = ([], true)
prepare_recv posts i (suc k) =
    let (ids, all) = prepare_recv posts (suc i) k in if posts i then (i ∷ ids, all) else ([], false)
