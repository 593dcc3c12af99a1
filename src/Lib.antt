-- ===== src/Lib.antt =====
-- fileTransferCmd: file transfer over RDMA at a rate that the network sets, a verification library.
--
-- A server (server.cpp) and a client (client.cpp) each run a StreamControl (StreamControl.cpp) over
-- a connection: a TCP socket for control, an RDMA queue pair for the blocks of the file. In the LUCP
-- mode (`use_message`) blocks may be lost: the receiver keeps the numbers that are missing and sends
-- requests for them over the socket, and the sender answers them. Meanwhile both exchange rate
-- packets (MessageSwap.h), which the switches on the way mark (switch1.cpp and its variants), and
-- the sender takes its pace from them. A master (master.cpp) starts the clients and collects the
-- rates that they report.
--
-- Prelude            names of the library and helpers for all the files.
-- Doubles            the doubles of the source as an interface of operations, with two laws.
-- Stream             StreamControl.cpp, the transfer itself.
--   Receive          postRecvFile. `Receiver` is its local state; `receive` is the body of the loop
--                    over the completions; Round has the round of the outer loop (`round`), with the
--                    requests (`request`, `respond`), and the loop itself (`receive_file`).
--                    SendLoop has the loop that sends a request, with a `send` that a signal
--                    interrupts; Round takes a request as sent or failed.
--   Send             postSendFile. `Sender` is its local state; `send_round` is one round of the
--                    outer loop, `serve` its part on the control socket, `try_send` the part that
--                    posts a block, `reap` the inner loop over the completions, `send_file` the loop.
--   Statistic        StreamControl::statistic; `watch` is its loop over the seconds.
-- Protocol           both loops together: `Step` is a round of either side, `pending` the requests on
--                    the socket. Kept has the invariant; Receiving, Safe and Room preserve it; End
--                    and Overlap draw the conclusions.
-- Setup              StreamControl.cpp, the setup of a connection: the memory region and its
--                    buffers, the data that connectPeer exchanges, sockSyncData (Socket),
--                    changeQPState (QueuePair), prepareRecv.
-- Rdma               HwRdma.h: create_mr and destroy_mr; init (Device).
-- Clients            ClientInfo.h, and the accept loop of server.cpp: `on_event`.
-- Swap               MessageSwap.h and timer.h: `on_packet` is a packet that sniff takes,
--                    `send_packet` one that send gives; RateController's calls have its names.
-- Switch             switch1.cpp: SwitchCache with `collect`, `mark` for the part of sniff_lucp that
--                    a rate request passes, in_cksum, and the ring of delayed packets (Ring).
--   Forward          sniff_lucp of switch.cpp (`sniff_plain`), switch2.cpp (`sniff_udp`), switch1.cpp
--                    (`sniff_delaying`) and switch_thread.cpp (`sniff_ring`), with the sending thread.
--   Config           parse_switch_config and parse_mac_str of switch1.cpp.
-- Conf               LocalConf.cpp: `load_conf` is loadConf, `load_lines` its loop, `set_value` its chain of
--                    keys, `read_int` a value with its range; `save_conf` gives saveConf's text.
-- Command            client.cpp: the loop over the connections of the master.
-- Master             master.cpp: RateCollector; `collect_rate` is the body of collect_rate_info,
--                    `publish` a round of check_and_send_thread.
--   Factor           caculator_factor.
--   Short            `collect_rate` on a transfer of few reports.
--   Config           parse_size, parse_delay and parse_master_config of master.cpp.
--   TestCase         collect_rate_info of test-case.cpp, `collect_test_rate`.
--
-- What the world does is given from outside, step by step: polls, requests, packets, the clock,
-- the answers of ibverbs and of the sockets. Most loops are structural recursion on that list, so
-- they need no fuel: a loop whose list runs out is in the state `waiting`, `starved` or
-- `running`, and a theorem says when the loop ends. createBufferPool and delay_sender_thread run
-- on fuel: one more than the bytes of the region, and the number of packets in the ring, are
-- enough. The rows that collect_rate_info appends and the digits of a printed number have a bound
-- in the code. A failed assert and an access out of range are values of their own (`none`,
-- `fault`), so that their absence can be stated. Threads that share a mutex are sequences of
-- events.
--
-- Unsigned integers wrap where the source's do (Prelude.Words, `% 2 ^ w`). Counters that cannot
-- reach their bound in the stated ranges are natural numbers.
--
-- In Protocol a round of either side is one step, a timeout of the receiver comes only after the
-- last block, and its requests can be sent; the blocks that a poll brings are any that were sent.
--
-- Not modelled: printing, the contents of the blocks behind the number, memory that is not freed,
-- the libraries (ibverbs, sockets, wxWidgets, librdkafka, the JSON library), the starting of the
-- clients by the master, the values that it publishes, and the parts of test-case.cpp that are
-- copies of master.cpp. Of the functions that the switches share, the statistics, the checksum,
-- the configuration and the ring are modelled once, from switch1.cpp.
pub mod Prelude
pub mod Clients
pub mod Command
pub mod Conf
pub mod Doubles
pub mod Master
pub mod Protocol
pub mod Rdma
pub mod Setup
pub mod Stream
pub mod Swap
pub mod Switch
