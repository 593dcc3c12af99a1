-- ===== src/Doubles/Naturals.antt =====
-- The natural numbers in the place of the doubles, for runs on small inputs.
use file_transfer_cmd.Prelude.{arith, leb, ltb, ℕ, ◌*◌, ◌+◌, ◌-◌, ◌/◌}
use file_transfer_cmd.Doubles.{Doubles, DoublesLaws}

abbrev pub naturals : Doubles ℕ
naturals = record {
  lt = ltb;
  le = leb;
  add = λ a b. a + b;
  sub = λ a b. a - b;
  mul = λ a b. a * b;
  div = λ a b. a / b;
  fabs = λ a. a;
  of_nat = λ a. a;
  epsilon = 0;
}

pub naturals-laws : DoublesLaws naturals
naturals-laws = record { irrefl = λ x. ground arith; asym = λ x y h. ground arith }
