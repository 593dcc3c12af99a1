-- ===== src/Switch/Ring.antt =====
-- switch1.cpp: the ring of delayed packets, `delay_buf` with `_head` and `_tail`, as a queue. The
-- receiving thread appends, the sending thread takes what is due; the mutex makes each a step.
-- DELAY_BUF_SIZE is the length of the buffer, DELAY_MS is 1, and times are in nanoseconds.
pub mod Delay
use file_transfer_cmd.Prelude.{
  List, Option, [], get_or, if◌then◌else◌, leb, length, none, set, some, suc, zero, ℕ, ◌%◌, ◌+◌,
  ◌==◌, ◌∷◌,
}

-- `DelayedPacket`; an entry that is not `valid` is `none` in the buffer.
pub record Delayed (A : Type 0) : Type 0 where
  pub packet : A
  pub send_time : ℕ

pub record Ring (A : Type 0) : Type 0 where
  pub delay_buf : List (Option (Delayed A))
  pub head : ℕ
  pub tail : ℕ

-- A packet at the head, to be sent at `time`.
unfoldable pub put : {A : Type 0} → A → ℕ → Ring A → Ring A
put p time r = record r {
  delay_buf = set r.delay_buf r.head (some (record { packet = p; send_time = time }));
  head = (r.head + 1) % length r.delay_buf;
}

-- A packet that is delayed, received at `now`.
unfoldable pub delay : {A : Type 0} → A → ℕ → Ring A → Ring A
delay p now r = put p (now + 1000000) r

-- The inner loop of delay_sender_thread, on fuel: the packets sent, and the ring.
unfoldable pub send_due : {A : Type 0} → ℕ → ℕ → Ring A → List A × Ring A
send_due zero now r = ([], r)
send_due (suc fuel) now r =
    if r.tail == r.head then ([], r) else elim (get_or r.delay_buf r.tail none) [
      | none ↦ ([], r)
      | some x ↦
          let (gone, r') = send_due fuel now (record r {
            delay_buf = set r.delay_buf r.tail none;
            tail = (r.tail + 1) % length r.delay_buf;
          }) in
          if leb x.send_time now then (x.packet ∷ gone, r') else ([], r)
    ]
