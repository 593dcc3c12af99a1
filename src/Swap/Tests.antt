-- ===== src/Swap/Tests.antt =====
-- Runs of the rate packets on small inputs, and the theorems on them.
use file_transfer_cmd.Prelude.{List, [], false, refl, true, ℕ, ◌∷◌, ◌≡◌}
use file_transfer_cmd.Doubles.{NotAbove}
use file_transfer_cmd.Doubles.Naturals.{naturals, naturals-laws}
use file_transfer_cmd.Swap.{
  MessageSwap, Packet, SwapEvent, apply_rate, info_reply, info_request, is_warm, new_swap,
  note_iter, offered_rate, on_kind, on_packet, on_reply, on_swap_event, packet, run_send,
  run_sending, run_swap, send_packet, start_timer, tick,
}
use file_transfer_cmd.Swap.Pace.{IsPaced, on_reply_overloaded, swap_within_rate}

-- A reply of iteration `n`, with this overload and this fair rate.
abbrev reply : ℕ → ℕ → ℕ → Packet ℕ
reply n o g = record {
  kind = info_reply;
  sequence = 0;
  r_c = 2;
  r_s = 1;
  r_t = 0;
  o_s = o;
  g_s = g;
  x_r = 0;
  n_iter = n;
}

abbrev exchange : List (ℕ × SwapEvent ℕ)
exchange =
    (0, run_sending)
    ∷ (1, tick)
    ∷ (5, packet (reply 10 0 80))
    ∷ (9, packet (reply 13 0 60))
    ∷ (12, packet (reply 14 1 90))
    ∷ []

-- The rate goes to 60 and stays there while a switch is overloaded.
exchange-run :
    (run_swap naturals (λ i. i) (λ k. k) exchange (new_swap naturals 100 8 0)).true_rate ≡ 60
unfolding run_swap on_swap_event on_packet on_kind on_reply send_packet run_send new_swap note_iter
    offered_rate is_warm apply_rate start_timer
exchange-run = refl

swap_within_rate_example :
    IsPaced naturals (run_swap naturals (λ i. i) (λ k. k) exchange (new_swap naturals 100 8 0))
swap_within_rate_example =
    swap_within_rate naturals naturals-laws (λ i. i) (λ k. k) 100 8 0 exchange refl

abbrev warm_state : MessageSwap ℕ
warm_state = record {
  timer = record { interval = 13; valid = true; timeout = 9 };
  pause_send_event = false;
  pause_recv_event = true;
  init_iter = true;
  rate_init = true;
  init_rate = 100;
  true_rate = 60;
  init_interval = 8;
  cache_packet = record {
    kind = info_request;
    sequence = 0;
    r_c = 0;
    r_s = 0;
    r_t = 1;
    o_s = 0;
    g_s = 100;
    x_r = 60;
    n_iter = 10;
  };
  send_seq = 1;
}

warm_state-warm : is_warm naturals (reply 14 1 90) warm_state ≡ true
unfolding is_warm
warm_state-warm = refl

on_reply_overloaded_example :
    NotAbove naturals (on_reply naturals 12 (reply 14 1 90) warm_state).cache_packet.x_r 60
    × ((on_reply naturals 12 (reply 14 1 90) warm_state).true_rate
        ≡ (on_reply naturals 12 (reply 14 1 90) warm_state).cache_packet.x_r)
on_reply_overloaded_example =
    on_reply_overloaded naturals naturals-laws 12 (reply 14 1 90) warm_state refl warm_state-warm
      refl
