-- ===== src/Setup/Handshake.antt =====
-- StreamControl::connectPeer: what is sent is what is received, and both peers use one block size.
use file_transfer_cmd.Prelude.{Bool, arith, false, refl, true, ℕ, ◌<◌, ◌^◌, ◌≡◌}
use file_transfer_cmd.Setup.{
  Local, QpInfo, agreed_block_size, from_net, local_qp_info, swap16, swap32, to_net,
}

pub record IsQpInfo (q : QpInfo) : Type 0 where
  pub lid : q.lid < 2 ^ 16
  pub qp_num : q.qp_num < 2 ^ 32
  pub block_num : q.block_num < 2 ^ 32
  pub block_size : q.block_size < 2 ^ 32

swap16-swap16 : (x : ℕ) → x < 2 ^ 16 → swap16 (swap16 x) ≡ x
unfolding swap16
swap16-swap16 x h = omega arith

swap32-swap32 : (x : ℕ) → x < 2 ^ 32 → swap32 (swap32 x) ≡ x
unfolding swap32
swap32-swap32 x h = omega arith

-- The peer reads the data that was sent: the two byte orders undo each other on values in range.
pub from_net-to_net : (q : QpInfo) → IsQpInfo q → from_net (to_net q) ≡ q
unfolding from_net to_net
from_net-to_net q h =
    rw
      (
        swap16-swap16 q.lid h.lid,
        swap32-swap32 q.qp_num h.qp_num,
        swap32-swap32 q.block_num h.block_num,
        swap32-swap32 q.block_size h.block_size,
      )
      refl

-- With the server's data in range, the client that takes them from the network in the mode of the
-- server comes to the block size that the server uses, whatever its own configuration says.
pub same_block_size :
    (use_message : Bool) (server client : Local) (seen : QpInfo)
    → IsQpInfo (local_qp_info use_message server)
    → agreed_block_size false use_message client
        (from_net (to_net (local_qp_info use_message server)))
      ≡ agreed_block_size true use_message server seen
unfolding agreed_block_size local_qp_info
same_block_size use_message server client seen h =
    rw (from_net-to_net (local_qp_info use_message server) h) refl
