-- ===== src/Setup/Tests.antt =====
-- Runs of the setup of a connection, and the theorems on them.
use file_transfer_cmd.Prelude.{Bool, [], arith, false, refl, some, true, ◌∷◌, ◌≡◌}
use file_transfer_cmd.Rdma.{Rdma}
use file_transfer_cmd.Setup.{
  Local, agreed_block_size, buffers_from, create_buffer_pool, from_net, local_qp_info, to_net,
}
use file_transfer_cmd.Setup.Handshake.{IsQpInfo, same_block_size}
use file_transfer_cmd.Setup.Pool.{Tiles, create_buffer_pool-Tiles}
use file_transfer_cmd.Setup.QueuePair.{IsDocumented, Modify, QpState, exact, transport, uc}
use file_transfer_cmd.Setup.Socket.{
  Sent, got, send_loop, sent, sock_sync_data, sock_sync_data_split,
}

abbrev server_side : Local
server_side = record {
  lid = 5;
  qp_num = 70000;
  block_num = 256;
  block_size = 1024;
  gid = 1 ∷ 2 ∷ [];
}

abbrev client_side : Local
client_side = record {
  lid = 6;
  qp_num = 80000;
  block_num = 128;
  block_size = 512;
  gid = 3 ∷ 4 ∷ [];
}

server_side-IsQpInfo : IsQpInfo (local_qp_info true server_side)
unfolding local_qp_info
server_side-IsQpInfo = record {
  lid = omega arith;
  qp_num = omega arith;
  block_num = omega arith;
  block_size = omega arith;
}

same_block_size_example :
    agreed_block_size false true client_side (from_net (to_net (local_qp_info true server_side)))
    ≡ agreed_block_size true true server_side (local_qp_info true client_side)
same_block_size_example =
    same_block_size true server_side client_side (local_qp_info true client_side)
      server_side-IsQpInfo

pool-run : create_buffer_pool 4 14 ≡ 0 ∷ 4 ∷ 8 ∷ []
unfolding create_buffer_pool buffers_from
pool-run = refl

create_buffer_pool-Tiles_example : Tiles 0 4 14 (create_buffer_pool 4 14)
create_buffer_pool-Tiles_example = create_buffer_pool-Tiles 4 14 (omega arith)

sends-run : send_loop (Sent.interrupted ∷ sent 3 ∷ []) ≡ true
unfolding send_loop
sends-run = refl

-- Of the message 7, 8, 9 only the last byte is left, in front.
sock_sync_data_split_example :
    sock_sync_data 3
      (Sent.interrupted ∷ sent 3 ∷ [])
      (got (7 ∷ 8 ∷ []) ∷ got (9 ∷ []) ∷ [])
      (0 ∷ 0 ∷ 0 ∷ [])
    ≡ some (9 ∷ 8 ∷ 0 ∷ [], [])
sock_sync_data_split_example =
    sock_sync_data_split (Sent.interrupted ∷ sent 3 ∷ []) (7 ∷ 8 ∷ []) (9 ∷ []) [] (0 ∷ 0 ∷ 0 ∷ [])
      sends-run (omega arith) (omega arith)

-- A driver that accepts just what the manual says.
abbrev strict : QpState → Modify → Bool
strict from m = exact uc from m

strict-IsDocumented : IsDocumented (transport true) strict
unfolding transport
strict-IsDocumented from m e = e

abbrev fresh_server : Rdma
fresh_server = record { free_size = 100; mr_set = [] }
