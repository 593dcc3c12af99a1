-- ===== src/Switch/FrameTests.antt =====
-- A switch that delays, and the configuration of one, at concrete inputs.
use file_transfer_cmd.Prelude.{
  List, Option, [], arith, length, none, refl, replicate, some, ℕ, ◌-◌, ◌∷◌, ◌≡◌,
}
use file_transfer_cmd.Conf.{codes, is_comment_or_empty, is_digit, is_space}
use file_transfer_cmd.Doubles.Naturals.{naturals}
use file_transfer_cmd.Swap.{Packet, info_request}
use file_transfer_cmd.Switch.{Cache}
use file_transfer_cmd.Switch.Config.{
  Tables, add_port, add_route, assign, config_line, content_line, find_name, hex_digits, hex_value,
  in_route, is_hex, is_white, loaded, mac_bytes, new_cache, next_word, no_tables, outside,
  parse_mac_str, parse_switch_config, port_of_line, route_of_line, section_line, skip_prefix,
  skip_to_hex, strip, strip_end, strip_start, strtol_hex, word_split,
}
use file_transfer_cmd.Switch.Config.Ports.{IsRouted, parse_switch_config-IsRouted}
use file_transfer_cmd.Switch.Config.Room.{Counts, parse_switch_config-Counts, ports_asked}
use file_transfer_cmd.Switch.Forward.{
  DelayNet, Frame, FrameEvent, IpProtocol, RingNet, arrivals, arrives, delay_frame, delay_icmp,
  find, icmp, mark_at, mark_frame, pass_delaying, pass_ring, put_delayed, put_marked, readdress,
  received, ring_icmp, run_delaying, run_ring, run_udp, send_all, send_marked, send_now,
  sniff_delaying, sniff_ring, udp, wake, wake_ring, wakes,
}
use file_transfer_cmd.Switch.Forward.Delaying.{Follows, run_delaying-Follows}
use file_transfer_cmd.Switch.Forward.Direct.{forward_all}
use file_transfer_cmd.Switch.Forward.Fifo.{InLine, run_ring-InLine}
use file_transfer_cmd.Switch.Ring.{delay, put, send_due}
use file_transfer_cmd.Switch.Ring.Delay.{IsQueue}

abbrev port_cache : Cache ℕ
port_cache = record { line_rate = 100; o_l = 3; g_l = 60; n_l = 0; u_l = 0; y_l = 0; n_iter = 7 }

abbrev request : Packet ℕ
request = record {
  kind = info_request;
  sequence = 0;
  r_c = 0;
  r_s = 0;
  r_t = 1;
  o_s = 0;
  g_s = 100;
  x_r = 30;
  n_iter = 0;
}

abbrev frame : IpProtocol → Frame ℕ
frame p = record {
  h_source = 1 ∷ [];
  h_dest = 2 ∷ [];
  daddr = 9;
  protocol = p;
  lucp_packet = request;
  checksum = 0;
}

abbrev layout : Frame ℕ → List ℕ
layout f = f.lucp_packet.r_c ∷ f.lucp_packet.r_s ∷ []

abbrev idle_net : DelayNet ℕ
idle_net = record {
  net = record {
    caches = port_cache ∷ [];
    routes = (9, 0) ∷ [];
    if_mac = 5 ∷ [];
    from = [];
    out = [];
  };
  ring = record { delay_buf = replicate 5 none; head = 4; tail = 4 };
}

-- A data frame that is delayed, a request that overtakes it, and the sending thread.
abbrev three_events : List (FrameEvent ℕ)
three_events = arrives (frame udp) 0 ∷ arrives (frame icmp) 10 ∷ wakes 1000000 ∷ []

idle-IsQueue : IsQueue 5 [] idle_net.ring
idle-IsQueue = record {
  size = refl;
  start = omega arith;
  end = refl;
  room = omega arith;
  slots = tt;
}

protocols : {D : Type 0} → List (List ℕ × Frame D) → List IpProtocol
protocols [] = []
protocols ((a, f) ∷ out) = f.protocol ∷ protocols out

overtaken : protocols (run_delaying naturals layout three_events idle_net).net.out ≡ icmp ∷ udp ∷ []
unfolding run_delaying sniff_delaying received readdress pass_delaying delay_icmp delay_frame
    send_marked mark_frame mark_at send_now wake send_all delay put send_due find protocols
overtaken = refl

run_delaying-Follows_example :
    (m : ℕ) × Follows 5 m
      (run_udp naturals layout (arrivals three_events) idle_net.net)
      (run_delaying naturals layout three_events idle_net)
run_delaying-Follows_example =
    run_delaying-Follows naturals layout 5 three_events idle_net refl idle-IsQueue (omega arith)

-- A rate of one digit.
abbrev read_digit : List ℕ → Option ℕ
read_digit (b ∷ c ∷ cs) = some (c - b'0')
read_digit short = none

abbrev address : List ℕ → ℕ
address text = length text

abbrev config : List (List ℕ)
config =
    codes "[Mac]"
    ∷ codes " b0:51:8e:f6:36:13"
    ∷ codes "[Port]\r"
    ∷ codes "one 4"
    ∷ codes "# two 5"
    ∷ codes "[Route]"
    ∷ codes "10.0.0.1 one"
    ∷ codes "10.0.0.2 two"
    ∷ []

abbrev config_tables : Tables ℕ
config_tables = record {
  caches = record { line_rate = 4; o_l = 0; g_l = 4; n_l = 0; u_l = 0; y_l = 0; n_iter = 0 } ∷ [];
  names = (codes "one", 0) ∷ [];
  routes = (8, 0) ∷ [];
  if_mac = 176 ∷ 81 ∷ 142 ∷ 246 ∷ 54 ∷ 19 ∷ [];
}

config-run :
    parse_switch_config naturals read_digit address outside config (no_tables [])
    ≡ loaded in_route config_tables
unfolding parse_switch_config config_line content_line section_line add_port add_route route_of_line
    port_of_line new_cache find_name assign parse_mac_str mac_bytes skip_to_hex strtol_hex
    skip_prefix hex_digits hex_value is_hex next_word word_split strip strip_end strip_start
    is_white is_space is_digit is_comment_or_empty
config-run = refl

parse_switch_config-IsRouted_example : IsRouted config_tables
parse_switch_config-IsRouted_example =
    parse_switch_config-IsRouted naturals read_digit address config [] config-run

-- Five ports.
abbrev crowded : List (List ℕ)
crowded = codes "[Port]" ∷ codes "a 1" ∷ codes "b 2" ∷ codes "c 3" ∷ codes "d 4" ∷ codes "e 5" ∷ []

parse_switch_config-Counts_example :
    Counts
      (ports_asked naturals read_digit address outside crowded)
      (parse_switch_config naturals read_digit address outside crowded (no_tables []))
parse_switch_config-Counts_example =
    parse_switch_config-Counts naturals read_digit address crowded []

abbrev idle_ring : RingNet ℕ
idle_ring = record { net = idle_net.net; ring = idle_net.ring; times = replicate 5 0 }

-- The request waits for the data frame before it.
in_line : protocols (run_ring naturals layout three_events idle_ring).net.out ≡ []
unfolding run_ring sniff_ring received pass_ring ring_icmp put_delayed put_marked mark_frame mark_at
    wake_ring send_all put send_due find protocols
in_line = refl

run_ring-InLine_example :
    (m : ℕ) × InLine 5 m
      (forward_all naturals layout (arrivals three_events) idle_ring.net).0
      (forward_all naturals layout (arrivals three_events) idle_ring.net).1
      (run_ring naturals layout three_events idle_ring)
run_ring-InLine_example =
    run_ring-InLine naturals layout 5 three_events idle_ring refl idle-IsQueue (omega arith)
