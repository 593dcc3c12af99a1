-- ===== src/Swap/Pace.antt =====
-- MessageSwap: the rate stays within the configured one and is not raised during an overload.
use file_transfer_cmd.Prelude.{
  Bool-cases, List, [], ap, arith, if◌then◌else◌, inl, inr, refl, true, ℕ, ◌∙◌, ◌∷◌, ◌≡◌,
}
use file_transfer_cmd.Doubles.{Doubles, DoublesLaws, NotAbove, dmin-NotAbove}
use file_transfer_cmd.Swap.{
  Kind, MessageSwap, Packet, SwapEvent, apply_rate, info_reply, info_request, is_warm, new_swap,
  note_iter, offered_rate, on_kind, on_packet, on_reply, on_swap_event, other_kind, packet,
  pause_receiving, pause_recv, pause_send, pause_sending, posted, run_receiving, run_recv, run_send,
  run_sending, run_swap, send_packet, tick, update_next_send,
}

-- No rate that is kept, in the packet or as the pace, is above the configured one.
pub record IsPaced {D : Type 0} (d : Doubles D) (m : MessageSwap D) : Type 0 where
  pub cached : NotAbove d m.cache_packet.x_r m.init_rate
  pub actual : NotAbove d m.true_rate m.init_rate
  pub zero_rate : NotAbove d (d.of_nat 0) m.init_rate

module _ {D : Type 0} (d : Doubles D) (l : DoublesLaws d) where
  pub new_swap-IsPaced :
      (rate interval : D) (now : ℕ)
      → NotAbove d (d.of_nat 0) rate
      → IsPaced d (new_swap d rate interval now)
  unfolding new_swap
  new_swap-IsPaced rate interval now h = record { cached = h; actual = h; zero_rate = h }

  note_iter-IsPaced : (p : Packet D) (m : MessageSwap D) → IsPaced d m → IsPaced d (note_iter d p m)
  unfolding note_iter
  note_iter-IsPaced p m i = elim (Bool-cases m.init_iter) [
    | inl known ↦
        rw known (record { cached = i.cached; actual = i.actual; zero_rate = i.zero_rate })
    | inr first ↦
        rw first (record { cached = i.cached; actual = i.actual; zero_rate = i.zero_rate })
  ]

  note_iter-same :
      (p : Packet D) (m : MessageSwap D)
      → ((note_iter d p m).init_rate ≡ m.init_rate)
        × ((note_iter d p m).cache_packet.x_r ≡ m.cache_packet.x_r)
  unfolding note_iter
  note_iter-same p m = (ground arith, ground arith)

  apply_rate-same :
      (now : ℕ) (m : MessageSwap D)
      → ((apply_rate d now m).init_rate ≡ m.init_rate)
        × ((apply_rate d now m).true_rate ≡ m.true_rate)
  unfolding apply_rate
  apply_rate-same now m = (ground arith, ground arith)

  offered_rate-NotAbove :
      (p : Packet D) (m : MessageSwap D) → IsPaced d m → NotAbove d (offered_rate d p m) m.init_rate
  unfolding offered_rate
  offered_rate-NotAbove p m i = ground (arith, i.cached, dmin-NotAbove d l m.init_rate p.g_s)

  on_reply-IsPaced :
      (now : ℕ) (p : Packet D) (m : MessageSwap D) → IsPaced d m → IsPaced d (on_reply d now p m)
  unfolding on_reply
  on_reply-IsPaced now p m i =
      let m₁ : MessageSwap D = note_iter d p m in
      let i₁ : IsPaced d m₁ = note_iter-IsPaced p m i in
      let x : D = offered_rate d p m₁ in
      let below : NotAbove d x m₁.init_rate = offered_rate-NotAbove p m₁ i₁ in
      let pace : D = if is_warm d p m₁ then x else d.of_nat 0 in
      let (rate, pace_kept) = apply_rate-same now (record m₁ { true_rate = pace }) in
      record {
        cached = ap (λ r. d.lt r x) rate ∙ below;
        actual =
            ap (λ r. d.lt r (on_reply d now p m).true_rate) rate
            ∙ ap (d.lt m₁.init_rate) pace_kept
            ∙ elim (Bool-cases (is_warm d p m₁)) [
              | inl warm ↦ rw warm below
              | inr cold ↦ rw cold i₁.zero_rate
            ];
        zero_rate = ap (λ r. d.lt r (d.of_nat 0)) rate ∙ i₁.zero_rate;
      }

  on_kind-IsPaced :
      (now : ℕ) (p : Packet D) (m : MessageSwap D) (k : Kind)
      → IsPaced d m
      → IsPaced d (on_kind d now p m k).0
  unfolding on_kind
  on_kind-IsPaced now p m info_request i = i
  on_kind-IsPaced now p m (other_kind k) i = i
  on_kind-IsPaced now p m info_reply i = elim (Bool-cases m.pause_send_event) [
    | inl off ↦ simp off i
    | inr on ↦ simp on (on_reply-IsPaced now p m i)
  ]

  on_swap_event-IsPaced :
      (ns : D → ℕ) (htons : ℕ → ℕ) (now : ℕ) (e : SwapEvent D) (m : MessageSwap D)
      → IsPaced d m
      → IsPaced d (on_swap_event d ns htons now e m)
  unfolding on_swap_event on_packet on_kind send_packet run_send pause_send run_recv pause_recv
      update_next_send
  on_swap_event-IsPaced ns htons now (packet p) m i = on_kind-IsPaced now p m p.kind i
  on_swap_event-IsPaced ns htons now tick m i = record {
    cached = i.cached;
    actual = i.actual;
    zero_rate = i.zero_rate;
  }
  on_swap_event-IsPaced ns htons now run_sending m i = record {
    cached = i.cached;
    actual = i.actual;
    zero_rate = i.zero_rate;
  }
  on_swap_event-IsPaced ns htons now pause_sending m i = record {
    cached = i.cached;
    actual = i.actual;
    zero_rate = i.zero_rate;
  }
  on_swap_event-IsPaced ns htons now run_receiving m i = record {
    cached = i.cached;
    actual = i.actual;
    zero_rate = i.zero_rate;
  }
  on_swap_event-IsPaced ns htons now pause_receiving m i = record {
    cached = i.cached;
    actual = i.actual;
    zero_rate = i.zero_rate;
  }
  on_swap_event-IsPaced ns htons now posted m i = record {
    cached = i.cached;
    actual = i.actual;
    zero_rate = i.zero_rate;
  }

  run_swap-IsPaced :
      (ns : D → ℕ) (htons : ℕ → ℕ) (es : List (ℕ × SwapEvent D)) (m : MessageSwap D)
      → IsPaced d m
      → IsPaced d (run_swap d ns htons es m)
  unfolding run_swap
  run_swap-IsPaced ns htons [] m i = i
  run_swap-IsPaced ns htons ((now, e) ∷ es) m i =
      run_swap-IsPaced ns htons es (on_swap_event d ns htons now e m)
        (on_swap_event-IsPaced ns htons now e m i)

  note_iter-known : (p : Packet D) (m : MessageSwap D) → m.init_iter ≡ true → note_iter d p m ≡ m
  unfolding note_iter
  note_iter-known p m known = simp known refl

  offered_rate-calm :
      (p : Packet D) (m : MessageSwap D)
      → is_warm d p m ≡ true
      → d.lt (d.of_nat 0) p.o_s ≡ true
      → NotAbove d (offered_rate d p m) m.cache_packet.x_r
  unfolding offered_rate
  offered_rate-calm p m warm over = ground (arith, warm, over, l.irrefl m.cache_packet.x_r)

  -- After the first three iterations, a reply that reports an overload never raises the rate: the
  -- new one is not above the one before, and it is also the pace.
  pub on_reply_overloaded :
      (now : ℕ) (p : Packet D) (m : MessageSwap D)
      → m.init_iter ≡ true
      → is_warm d p m ≡ true
      → d.lt (d.of_nat 0) p.o_s ≡ true
      → NotAbove d (on_reply d now p m).cache_packet.x_r m.cache_packet.x_r
        × ((on_reply d now p m).true_rate ≡ (on_reply d now p m).cache_packet.x_r)
  unfolding on_reply note_iter offered_rate
  on_reply_overloaded now p m known warm over =
      let same : note_iter d p m ≡ m = note_iter-known p m known in
      let m₂ : MessageSwap D = record (note_iter d p m) {
        true_rate =
            if is_warm d p (note_iter d p m)
            then offered_rate d p (note_iter d p m)
            else d.of_nat 0;
      } in
      let still_warm : is_warm d p (note_iter d p m) ≡ true = ap (is_warm d p) same ∙ warm in
      (
        ap (λ k. d.lt m.cache_packet.x_r (offered_rate d p k)) same
            ∙ offered_rate-calm p m warm over,
        (apply_rate-same now m₂).1 ∙ rw still_warm refl,
      )

-- Whatever packets come and whenever the sender and the receiver are started and stopped, neither
-- the rate that the packets carry nor the pace of the sender is ever above the configured rate.
pub swap_within_rate :
    {D : Type 0} (d : Doubles D) (l : DoublesLaws d) (ns : D → ℕ) (htons : ℕ → ℕ)
    (rate interval : D) (now : ℕ) (es : List (ℕ × SwapEvent D))
    → NotAbove d (d.of_nat 0) rate
    → IsPaced d (run_swap d ns htons es (new_swap d rate interval now))
swap_within_rate d l ns htons rate interval now es h =
    run_swap-IsPaced d l ns htons es (new_swap d rate interval now)
      (new_swap-IsPaced d l rate interval now h)
