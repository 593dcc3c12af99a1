-- ===== src/Switch/Forward/Direct.antt =====
-- What a switch does with a frame, without any delay.
use file_transfer_cmd.Prelude.{List, Option, [], none, some, ℕ, ◌++◌, ◌∷◌}
use file_transfer_cmd.Doubles.{Doubles}
use file_transfer_cmd.Swap.{Kind, info_reply, info_request, other_kind}
use file_transfer_cmd.Switch.Forward.{
  Frame, IpProtocol, Net, find, icmp, mark_frame, other_protocol, udp,
}

module _ {D : Type 0} (d : Doubles D) (layout : Frame D → List ℕ) where
  -- What a frame does to the statistics, and the frame that goes on, if one does.
  abbrev pub forward_icmp : Kind → ℕ → Frame D → Net D → Net D × List (Frame D)
  forward_icmp info_request i f s = let (s', f') = mark_frame d layout i f s in (s', f' ∷ [])
  forward_icmp info_reply i f s = (s, f ∷ [])
  forward_icmp (other_kind k) i f s = (s, f ∷ [])

  abbrev pub forward_by : IpProtocol → ℕ → Frame D → Net D → Net D × List (Frame D)
  forward_by icmp i f s = forward_icmp f.lucp_packet.kind i f s
  forward_by udp i f s = (s, f ∷ [])
  forward_by other_protocol i f s = (s, [])

  abbrev pub forward_to : Option ℕ → Frame D → Net D → Net D × List (Frame D)
  forward_to none f s = (s, [])
  forward_to (some i) f s = forward_by f.protocol i f s

  abbrev pub forward : Frame D → Net D → Net D × List (Frame D)
  forward f s = forward_to (find f.daddr s.routes) f (record s { from = f.h_source })

  -- The frames of some arrivals that go on, in order.
  abbrev pub forward_all : List (Frame D) → Net D → Net D × List (Frame D)
  forward_all [] s = (s, [])
  forward_all (f ∷ fs) s =
      let (s', now) = forward f s in let (s'', rest) = forward_all fs s' in (s'', now ++ rest)
