-- ===== src/Switch/Tests.antt =====
-- Runs of the switch on small inputs, and the theorems on them.
use file_transfer_cmd.Prelude.{List, [], arith, none, refl, some, ℕ, ◌%◌, ◌+◌, ◌/◌, ◌^◌, ◌∷◌, ◌≡◌}
use file_transfer_cmd.Doubles.Naturals.{naturals}
use file_transfer_cmd.Swap.{Packet, info_request}
use file_transfer_cmd.Switch.{Cache, in_cksum, is_worse, mark, pass}
use file_transfer_cmd.Switch.Checksum.{in_cksum_verifies}
use file_transfer_cmd.Switch.Path.{Counted, Names, pass-Counted, pass-Names}
use file_transfer_cmd.Switch.Ring.{Delayed, Ring, delay, send_due}
use file_transfer_cmd.Switch.Ring.Delay.{IsQueue, delay-IsQueue, delay_overflow}

abbrev cache : ℕ → ℕ → Cache ℕ
cache o g = record { line_rate = 100; o_l = o; g_l = g; n_l = 0; u_l = 0; y_l = 0; n_iter = 7 }

abbrev request : Packet ℕ
request = record {
  kind = info_request;
  sequence = 0;
  r_c = 0;
  r_s = 0;
  r_t = 2;
  o_s = 0;
  g_s = 100;
  x_r = 30;
  n_iter = 0;
}

abbrev path : List (Cache ℕ)
path = cache 1 60 ∷ cache 5 40 ∷ cache 2 20 ∷ []

-- The second switch is the most loaded.
path-run : (pass naturals path request).1.r_s ≡ 2
unfolding pass mark is_worse
path-run = refl

pass-Names_example :
    ((pass naturals path request).1.r_c ≡ 3) × Names path 0 request (pass naturals path request).1
pass-Names_example = pass-Names naturals path request (omega arith)

pass-Counted_example : Counted 0 2 path (pass naturals path request).0
pass-Counted_example = pass-Counted naturals path request (omega arith)

in_cksum_verifies_example :
    let k = in_cksum (15 ∷ 0 ∷ 0 ∷ 0 ∷ 200 ∷ 255 ∷ 9 ∷ []) in
    in_cksum (15 ∷ 0 ∷ (k % 2 ^ 8) ∷ (k / 2 ^ 8) ∷ 200 ∷ 255 ∷ 9 ∷ []) ≡ 0
in_cksum_verifies_example =
    in_cksum_verifies 15 0 (200 ∷ 255 ∷ 9 ∷ []) (omega arith) (omega arith)
      (omega arith, (omega arith, (omega arith, tt))) (omega arith)

-- Two packets in a ring of four slots, around its end.
abbrev first_packet : Delayed ℕ
first_packet = record { packet = 11; send_time = 50 }

abbrev second_packet : Delayed ℕ
second_packet = record { packet = 12; send_time = 90 }

abbrev ring : Ring ℕ
ring = record {
  delay_buf = some second_packet ∷ none ∷ none ∷ some first_packet ∷ [];
  head = 1;
  tail = 3;
}

ring-IsQueue : IsQueue 4 (first_packet ∷ second_packet ∷ []) ring
ring-IsQueue = record {
  size = refl;
  start = omega arith;
  end = refl;
  room = omega arith;
  slots = (refl, (refl, tt));
}

delay-IsQueue_example :
    IsQueue 4
      (first_packet ∷ second_packet ∷ record { packet = 13; send_time = 60 + 1000000 } ∷ [])
      (delay 13 60 ring)
delay-IsQueue_example =
    delay-IsQueue 4 13 60 (first_packet ∷ second_packet ∷ []) ring (omega arith) ring-IsQueue

abbrev full_ring : Ring ℕ
full_ring = record {
  delay_buf = some first_packet ∷ some second_packet ∷ none ∷ [];
  head = 2;
  tail = 0;
}

full_ring-IsQueue : IsQueue 3 (first_packet ∷ second_packet ∷ []) full_ring
full_ring-IsQueue = record {
  size = refl;
  start = omega arith;
  end = refl;
  room = omega arith;
  slots = (refl, (refl, tt));
}

delay_overflow_example : send_due 9 100 (delay 13 60 full_ring) ≡ ([], delay 13 60 full_ring)
delay_overflow_example =
    delay_overflow 3 13 60 100 9 (first_packet ∷ second_packet ∷ []) full_ring refl
      full_ring-IsQueue
