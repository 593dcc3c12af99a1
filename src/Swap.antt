-- ===== src/Swap.antt =====
-- MessageSwap and RateController (MessageSwap.h) with their Timer (timer.h): the rate packets that
-- sender and receiver exchange, and the pace that follows from them. Time is in nanoseconds; what
-- the clock says is given.
pub mod Pace
mod Tests
use file_transfer_cmd.Prelude.{
  Bool, List, Option, [], false, if◌then◌else◌, leb, ltb, none, some, true, ℕ, ◌%◌, ◌&&◌, ◌+◌, ◌^◌,
  ◌∷◌,
}
use file_transfer_cmd.Doubles.{Doubles, dmin}
use file_transfer_cmd.Prelude.Words.{sub64}

-- LucpPacket; `kind` is hdr.type.
pub data Kind : Type 0 where
  info_request info_reply : Kind
  other_kind : ℕ → Kind

pub record Packet (D : Type 0) : Type 0 where
  pub kind : Kind
  pub sequence : ℕ
  pub r_c : ℕ
  pub r_s : ℕ
  pub r_t : ℕ
  pub o_s : D
  pub g_s : D
  pub x_r : D
  pub n_iter : ℕ

pub record Timer (D : Type 0) : Type 0 where
  pub interval : D
  pub valid : Bool
  pub timeout : ℕ

pub record MessageSwap (D : Type 0) : Type 0 where
  pub timer : Timer D
  pub pause_send_event : Bool
  pub pause_recv_event : Bool
  pub init_iter : Bool
  pub rate_init : Bool
  pub init_rate : D
  pub true_rate : D
  pub init_interval : D
  pub cache_packet : Packet D
  pub send_seq : ℕ

module _ {D : Type 0} (d : Doubles D) where
  -- Timer
  pub start_timer : ℕ → Timer D → Timer D
  start_timer now t = record t {
    valid = true;
    timeout = if ltb t.timeout now then now else t.timeout;
  }

  pub pause_timer : Timer D → Timer D
  pause_timer t = record t { valid = false }

  -- `ns` is the cast of an interval to nanoseconds.
  pub update_time_out : (D → ℕ) → Timer D → Timer D
  update_time_out ns t = record t { timeout = t.timeout + ns t.interval }

  pub is_time_out : ℕ → Timer D → Bool
  is_time_out now t = leb t.timeout now

  -- The constructor.
  pub new_swap : D → D → ℕ → MessageSwap D
  new_swap rate init_interval now = record {
    timer = record { interval = init_interval; valid = false; timeout = now };
    pause_send_event = true;
    pause_recv_event = true;
    init_iter = false;
    rate_init = false;
    init_rate = rate;
    true_rate = d.of_nat 0;
    init_interval = init_interval;
    cache_packet = record {
      kind = info_request;
      sequence = 0;
      r_c = 0;
      r_s = 0;
      r_t = 0;
      o_s = d.of_nat 0;
      g_s = rate;
      x_r = d.of_nat 0;
      n_iter = 0;
    };
    send_seq = 0;
  }

  -- The first reply sets the iteration that the later ones are measured from.
  pub note_iter : Packet D → MessageSwap D → MessageSwap D
  note_iter p m =
      if m.init_iter
      then m
      else record m { cache_packet = record m.cache_packet { n_iter = p.n_iter }; init_iter = true }

  -- The rate that the reply gives: never raised while a switch is overloaded.
  pub is_warm : Packet D → MessageSwap D → Bool
  is_warm p m = leb 3 (sub64 p.n_iter m.cache_packet.n_iter)

  pub offered_rate : Packet D → MessageSwap D → D
  offered_rate p m =
      let x = dmin d m.init_rate p.g_s in
      if is_warm p m && (d.lt (d.of_nat 0) p.o_s && d.lt m.cache_packet.x_r x)
      then m.cache_packet.x_r
      else x

  -- The interval and the start of the timer, by the new `true_rate`.
  pub apply_rate : ℕ → MessageSwap D → MessageSwap D
  apply_rate now m =
      if d.lt (d.of_nat 0) m.true_rate
      then (let paced : Timer D = record m.timer {
        interval = d.div (d.mul m.init_interval m.init_rate) m.true_rate;
      } in
          if m.rate_init
          then record m { timer = paced }
          else record m { timer = start_timer now paced; rate_init = true })
      else m

  -- A reply, while sending. memcpy leaves `n_iter` of the cached packet.
  pub on_reply : ℕ → Packet D → MessageSwap D → MessageSwap D
  on_reply now p m =
      let m₁ = note_iter p m in
      let x = offered_rate p m₁ in
      let m₂ = apply_rate now (record m₁ { true_rate = if is_warm p m₁ then x else d.of_nat 0 }) in
      record m₂ {
        cache_packet = record {
          kind = info_request;
          sequence = p.sequence;
          r_c = 0;
          r_s = 0;
          r_t = p.r_s;
          o_s = d.of_nat 0;
          g_s = m.init_rate;
          x_r = x;
          n_iter = m₁.cache_packet.n_iter;
        };
      }

  -- One packet from the peer: the state, and the packet that is sent back.
  pub on_kind : ℕ → Packet D → MessageSwap D → Kind → MessageSwap D × Option (Packet D)
  on_kind now p m info_reply = (if m.pause_send_event then m else on_reply now p m, none)
  on_kind now p m info_request =
      (m, if m.pause_recv_event then none else some (record p { kind = info_reply }))
  on_kind now p m (other_kind k) = (m, none)

  pub on_packet : ℕ → Packet D → MessageSwap D → MessageSwap D × Option (Packet D)
  on_packet now p m = on_kind now p m p.kind

  -- The next packet of the sending thread; htons swaps the bytes of its number.
  pub send_packet : (ℕ → ℕ) → MessageSwap D → MessageSwap D × Packet D
  send_packet htons m =
      let p : Packet D = record m.cache_packet { sequence = htons m.send_seq } in
      (record m { cache_packet = p; send_seq = (m.send_seq + 1) % 2 ^ 16 }, p)

  -- RateController
  pub get_rate : MessageSwap D → D
  get_rate m = if m.rate_init then m.true_rate else d.of_nat 0

  pub run_send : ℕ → MessageSwap D → MessageSwap D
  run_send now m = record m { pause_send_event = false; timer = start_timer now m.timer }

  pub pause_send : MessageSwap D → MessageSwap D
  pause_send m = record m { pause_send_event = true; timer = pause_timer m.timer }

  pub run_recv : MessageSwap D → MessageSwap D
  run_recv m = record m { pause_recv_event = false }

  pub pause_recv : MessageSwap D → MessageSwap D
  pause_recv m = record m { pause_recv_event = true }

  pub time_to_send : ℕ → MessageSwap D → Bool
  time_to_send now m = is_time_out now m.timer

  pub update_next_send : (D → ℕ) → MessageSwap D → MessageSwap D
  update_next_send ns m = record m { timer = update_time_out ns m.timer }

-- What happens to a controller, each with the time.
pub data SwapEvent (D : Type 0) : Type 0 where
  packet : Packet D → SwapEvent D
  tick run_sending pause_sending run_receiving pause_receiving posted : SwapEvent D

pub on_swap_event :
    {D : Type 0} (d : Doubles D)
    → (D → ℕ)
    → (ℕ → ℕ)
    → ℕ
    → SwapEvent D
    → MessageSwap D
    → MessageSwap D
on_swap_event d ns htons now (packet p) m = (on_packet d now p m).0
on_swap_event d ns htons now tick m = (send_packet d htons m).0
on_swap_event d ns htons now run_sending m = run_send d now m
on_swap_event d ns htons now pause_sending m = pause_send d m
on_swap_event d ns htons now run_receiving m = run_recv d m
on_swap_event d ns htons now pause_receiving m = pause_recv d m
on_swap_event d ns htons now posted m = update_next_send d ns m

pub run_swap :
    {D : Type 0} (d : Doubles D)
    → (D → ℕ)
    → (ℕ → ℕ)
    → List (ℕ × SwapEvent D)
    → MessageSwap D
    → MessageSwap D
run_swap d ns htons [] m = m
run_swap d ns htons ((now, e) ∷ es) m = run_swap d ns htons es (on_swap_event d ns htons now e m)
