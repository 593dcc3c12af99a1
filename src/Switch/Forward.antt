-- ===== src/Switch/Forward.antt =====
-- sniff_lucp: what each of the four switches does with one frame that it receives. switch.cpp and
-- switch2.cpp send at once, switch1.cpp delays some frames, switch_thread.cpp puts all into its ring.
-- A failure of recvfrom other than EWOULDBLOCK is not modelled.
pub mod Frames
pub mod Delaying
pub mod Direct
pub mod Fifo
use file_transfer_cmd.Prelude.{
  List, Option, [], get_elem?, get_or, if◌then◌else◌, length, none, set, some, ℕ, ◌++◌, ◌+◌, ◌==◌,
  ◌∷◌,
}
use file_transfer_cmd.Doubles.{Doubles}
use file_transfer_cmd.Swap.{Kind, Packet, info_reply, info_request, other_kind}
use file_transfer_cmd.Switch.{Cache, in_cksum, mark}
use file_transfer_cmd.Switch.Ring.{Ring, delay, put, send_due}

-- `ip_header->protocol`
pub data IpProtocol : Type 0 where
  icmp udp other_protocol : IpProtocol

-- A frame: its addresses, and the LucpPacket with its checksum, which only an ICMP frame has.
pub record Frame (D : Type 0) : Type 0 where
  pub h_source : List ℕ
  pub h_dest : List ℕ
  pub daddr : ℕ
  pub protocol : IpProtocol
  pub lucp_packet : Packet D
  pub checksum : ℕ

-- `routes` is dst_port_cache, with places in `caches`, which is switch_cache; `from` is the global
-- address; `out` has the frames sent at once with the address given to sendto, the last one last.
pub record Net (D : Type 0) : Type 0 where
  pub caches : List (Cache D)
  pub routes : List (ℕ × ℕ)
  pub if_mac : List ℕ
  pub from : List ℕ
  pub out : List (List ℕ × Frame D)

-- dst_port_cache.find
unfoldable pub find : ℕ → List (ℕ × ℕ) → Option ℕ
find key [] = none
find key ((k, v) ∷ rest) = if k == key then some v else find key rest

-- switch1.cpp with its ring, and switch_thread.cpp, whose slots keep the last `send_time`.
pub record DelayNet (D : Type 0) : Type 0 where
  pub net : Net D
  pub ring : Ring (Frame D)

pub record RingNet (D : Type 0) : Type 0 where
  pub net : Net D
  pub ring : Ring (Frame D)
  pub times : List ℕ

-- sendto with the global address
unfoldable pub send_now : {D : Type 0} → Frame D → Net D → Net D
send_now f s = record s { out = s.out ++ (s.from, f) ∷ [] }

-- The frames that the sending thread takes from the ring.
unfoldable pub send_all : {D : Type 0} → List (Frame D) → Net D → Net D
send_all [] s = s
send_all (f ∷ fs) s = send_all fs (send_now f s)

-- delay_sender_thread wakes at `now`; the buffer's length is fuel enough.
unfoldable pub wake : {D : Type 0} → ℕ → DelayNet D → DelayNet D
wake now t =
    let (gone, r) = send_due (length t.ring.delay_buf) now t.ring in
    record t { net = send_all gone t.net; ring = r }

-- The same in switch_thread.cpp.
unfoldable pub wake_ring : {D : Type 0} → ℕ → RingNet D → RingNet D
wake_ring now t =
    let (gone, r) = send_due (length t.ring.delay_buf) now t.ring in
    record t { net = send_all gone t.net; ring = r }

-- A frame that comes at a time, or the sending thread's turn.
pub data FrameEvent (D : Type 0) : Type 0 where
  arrives : Frame D → ℕ → FrameEvent D
  wakes : ℕ → FrameEvent D

-- The frames of some events.
abbrev pub arrivals : {D : Type 0} → List (FrameEvent D) → List (Frame D)
arrivals [] = []
arrivals (arrives f now ∷ es) = f ∷ arrivals es
arrivals (wakes now ∷ es) = arrivals es

-- `layout` gives the LucpPacket of a frame as it lies in memory.
module _ {D : Type 0} (d : Doubles D) (layout : Frame D → List ℕ) where
  -- A rate request at its port: the marks, the statistics and the new checksum.
  unfoldable pub mark_at : Option (Cache D) → ℕ → Frame D → Net D → Net D × Frame D
  mark_at none i f s = (s, f)
  mark_at (some c) i f s =
      let (c', p) = mark d c f.lucp_packet in
      let cleared : Frame D = record f { lucp_packet = p; checksum = 0 } in
      (
        record s { caches = set s.caches i c' },
        record cleared { checksum = in_cksum (layout cleared) },
      )

  unfoldable pub mark_frame : ℕ → Frame D → Net D → Net D × Frame D
  mark_frame i f s = mark_at (get_elem? s.caches i) i f s

  -- recvfrom writes the sender's address over the global one.
  unfoldable pub received : Frame D → Net D → Net D
  received f s = record s { from = f.h_source }

  -- The Ethernet addresses of a frame that is passed on.
  unfoldable pub readdress : Frame D → Net D → Net D × Frame D
  readdress f s = (record s { from = f.h_dest }, record f { h_source = s.if_mac })

  -- A rate request is marked and sent.
  unfoldable pub send_marked : ℕ → Frame D → Net D → Net D
  send_marked i f s = let (s', f') = mark_frame i f s in send_now f' s'

  unfoldable pub send_icmp : Kind → ℕ → Frame D → Net D → Net D
  send_icmp info_request i f s = send_marked i f s
  send_icmp info_reply i f s = send_now f s
  send_icmp (other_kind k) i f s = send_now f s

  -- switch.cpp sends ICMP only.
  unfoldable pub pass_plain : IpProtocol → ℕ → Frame D → Net D → Net D
  pass_plain icmp i f s = send_icmp f.lucp_packet.kind i f s
  pass_plain udp i f s = s
  pass_plain other_protocol i f s = s

  unfoldable pub sniff_plain : Frame D → Net D → Net D
  sniff_plain f s = elim (find f.daddr s.routes) [
    | none ↦ received f s
    | some i ↦ let (s', f') = readdress f (received f s) in pass_plain f.protocol i f' s'
  ]

  -- switch2.cpp
  unfoldable pub pass_udp : IpProtocol → ℕ → Frame D → Net D → Net D
  pass_udp icmp i f s = send_icmp f.lucp_packet.kind i f s
  pass_udp udp i f s = send_now f s
  pass_udp other_protocol i f s = s

  unfoldable pub sniff_udp : Frame D → Net D → Net D
  sniff_udp f s = elim (find f.daddr s.routes) [
    | none ↦ received f s
    | some i ↦ let (s', f') = readdress f (received f s) in pass_udp f.protocol i f' s'
  ]

  -- A frame of switch1.cpp into the ring.
  unfoldable pub delay_frame : Frame D → ℕ → DelayNet D → DelayNet D
  delay_frame f now t = record t { ring = delay f now t.ring }

  unfoldable pub delay_icmp : Kind → ℕ → Frame D → ℕ → DelayNet D → DelayNet D
  delay_icmp info_request i f now t = record t { net = send_marked i f t.net }
  delay_icmp info_reply i f now t = delay_frame f now t
  delay_icmp (other_kind k) i f now t =
      if k == 0 then delay_frame f now t else record t { net = send_now f t.net }

  unfoldable pub pass_delaying : IpProtocol → ℕ → Frame D → ℕ → DelayNet D → DelayNet D
  pass_delaying icmp i f now t = delay_icmp f.lucp_packet.kind i f now t
  pass_delaying udp i f now t = delay_frame f now t
  pass_delaying other_protocol i f now t = t

  -- switch1.cpp
  unfoldable pub sniff_delaying : Frame D → ℕ → DelayNet D → DelayNet D
  sniff_delaying f now t = elim (find f.daddr t.net.routes) [
    | none ↦ record t { net = received f t.net }
    | some i ↦
        let (s', f') = readdress f (received f t.net) in
        pass_delaying f.protocol i f' now (record t { net = s' })
  ]

  -- switch_thread.cpp: a marked request takes the time that its slot had before; all else is sent
  -- three milliseconds after `now`.
  unfoldable pub put_marked : Frame D → RingNet D → RingNet D
  put_marked f t = record t { ring = put f (get_or t.times t.ring.head 0) t.ring }

  unfoldable pub put_delayed : Frame D → ℕ → RingNet D → RingNet D
  put_delayed f now t = record t {
    ring = put f (now + 3000000) t.ring;
    times = set t.times t.ring.head (now + 3000000);
  }

  unfoldable pub ring_icmp : Kind → ℕ → Frame D → ℕ → RingNet D → RingNet D
  ring_icmp info_request i f now t =
      let (s', f') = mark_frame i f t.net in put_marked f' (record t { net = s' })
  ring_icmp info_reply i f now t = put_delayed f now t
  ring_icmp (other_kind k) i f now t = put_delayed f now t

  unfoldable pub pass_ring : IpProtocol → ℕ → Frame D → ℕ → RingNet D → RingNet D
  pass_ring icmp i f now t = ring_icmp f.lucp_packet.kind i f now t
  pass_ring udp i f now t = put_delayed f now t
  pass_ring other_protocol i f now t = t

  unfoldable pub sniff_ring : Frame D → ℕ → RingNet D → RingNet D
  sniff_ring f now t = elim (find f.daddr t.net.routes) [
    | none ↦ record t { net = received f t.net }
    | some i ↦ pass_ring f.protocol i f now (record t { net = received f t.net })
  ]

  -- The loops of sniff_lucp, and in switch1.cpp that of the sending thread with it.
  unfoldable pub run_plain : List (Frame D) → Net D → Net D
  run_plain [] s = s
  run_plain (f ∷ fs) s = run_plain fs (sniff_plain f s)

  unfoldable pub run_udp : List (Frame D) → Net D → Net D
  run_udp [] s = s
  run_udp (f ∷ fs) s = run_udp fs (sniff_udp f s)

  unfoldable pub run_delaying : List (FrameEvent D) → DelayNet D → DelayNet D
  run_delaying [] t = t
  run_delaying (arrives f now ∷ es) t = run_delaying es (sniff_delaying f now t)
  run_delaying (wakes now ∷ es) t = run_delaying es (wake now t)

  unfoldable pub run_ring : List (FrameEvent D) → RingNet D → RingNet D
  run_ring [] t = t
  run_ring (arrives f now ∷ es) t = run_ring es (sniff_ring f now t)
  run_ring (wakes now ∷ es) t = run_ring es (wake_ring now t)
