-- ===== src/Switch.antt =====
-- The software switch (switch1.cpp): the statistics of a port, the marking of the rate packets, the
-- ICMP checksum and the ring of delayed packets. SEND_TIMES (MessageInfo.h) is 5.
pub mod Path
pub mod Checksum
pub mod Ring
pub mod Forward
pub mod Config
mod Tests
mod FrameTests
use file_transfer_cmd.Prelude.{
  Bool, List, [], if◌then◌else◌, ltb, ℕ, ◌%◌, ◌&&◌, ◌*◌, ◌+◌, ◌-◌, ◌/◌, ◌==◌, ◌^◌, ◌||◌, ◌∷◌,
}
use file_transfer_cmd.Doubles.{Doubles}
use file_transfer_cmd.Prelude.Words.{add32, add64}
use file_transfer_cmd.Swap.{Packet}

-- `SwitchCache`: n_l is a uint32_t, n_iter a uint64_t.
pub record Cache (D : Type 0) : Type 0 where
  pub line_rate : D
  pub o_l : D
  pub g_l : D
  pub n_l : ℕ
  pub u_l : D
  pub y_l : D
  pub n_iter : ℕ

-- collect, at the end of each period.
pub collect : {D : Type 0} → Doubles D → Cache D → Cache D
collect d c =
    let capacity = d.mul c.line_rate (d.of_nat 5) in
    let o = if d.le c.y_l capacity then d.of_nat 0 else d.div (d.sub c.y_l capacity) c.y_l in
    let g = if ltb c.n_l 5 then c.line_rate else d.div (d.sub capacity c.u_l) (d.of_nat c.n_l) in
    record c {
      o_l = o;
      g_l = if d.lt g (d.of_nat 0) then d.of_nat 0 else g;
      n_l = 0;
      u_l = d.of_nat 0;
      y_l = d.of_nat 0;
      n_iter = add64 c.n_iter 1;
    }

-- Whether this switch is more congested than what the packet says.
pub is_worse : {D : Type 0} → Doubles D → Cache D → Packet D → Bool
is_worse d c p =
    let gap = d.fabs (d.sub c.o_l p.o_s) in
    (d.lt p.o_s c.o_l && d.lt d.epsilon gap) || (d.lt gap d.epsilon && d.lt c.g_l p.g_s)

-- A rate request on its way through the port; r_c is a uint8_t.
pub mark : {D : Type 0} → Doubles D → Cache D → Packet D → Cache D × Packet D
mark d c p =
    let r_c = (p.r_c + 1) % 2 ^ 8 in
    let worse = is_worse d c p in
    let counted =
      if r_c == p.r_t
      then record c { n_l = add32 c.n_l 1 }
      else record c { u_l = d.add c.u_l p.x_r } in
    (
      record counted { y_l = d.add c.y_l p.x_r },
      record p {
        r_c = r_c;
        r_s = if worse then r_c else p.r_s;
        g_s = if worse then c.g_l else p.g_s;
        o_s = if worse then c.o_l else p.o_s;
        n_iter = c.n_iter;
      },
    )

-- The switches that a packet passes, one after the other.
pub pass : {D : Type 0} → Doubles D → List (Cache D) → Packet D → List (Cache D) × Packet D
pass d [] p = ([], p)
pass d (c ∷ cs) p = let (c', p') = mark d c p in let (cs', p'') = pass d cs p' in (c' ∷ cs', p'')

-- The sum of the 16-bit words in memory order, and of an odd byte at the end.
pub sum_words : List ℕ → ℕ
sum_words [] = 0
sum_words (x ∷ []) = x
sum_words (x ∷ y ∷ bytes) = x + 2 ^ 8 * y + sum_words bytes

-- The two folds and the complement. `sum` is an int, which short packets do not fill.
pub fold_sum : ℕ → ℕ
fold_sum s = let a = s / 2 ^ 16 + s % 2 ^ 16 in let b = a + a / 2 ^ 16 in 2 ^ 16 - 1 - b % 2 ^ 16

pub in_cksum : List ℕ → ℕ
in_cksum bytes = fold_sum (sum_words bytes)
