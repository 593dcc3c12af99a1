-- ===== src/Stream/Receive/Tracks.antt =====
-- The receiver's bookkeeping against the set of the numbers that have arrived.
use file_transfer_cmd.Prelude.{
  Bool, Bool-cases, ap, arith, false, inl, inr, length, refl, suc, sym, true, zero, ℕ, ◌+◌, ◌<◌,
  ◌==◌, ◌∙◌, ◌≡◌, ◌≤◌,
}
use file_transfer_cmd.Prelude.Int.{pos, suc_ℤ}
use file_transfer_cmd.Stream.Receive.{Receiver, init}
use file_transfer_cmd.Stream.Receive.Covers.{Covers, Covers-congr, count_below, insert}

-- `got` is the set of numbers that have arrived, all of them below `n`. The deque holds an entry for
-- every number from `expect_seq` up to `recv_max_seq`, the first of them missing.
pub record Tracks (n : ℕ) (got : ℕ → Bool) (r : Receiver) : Type 0 where
  pub covers : Covers got r.expect_seq r.unrecv
  pub reach : r.expect_seq + length r.unrecv ≡ suc_ℤ r.recv_max_seq
  pub below : (j : ℕ) → j < r.expect_seq → got j ≡ true
  pub front : r.expect_seq < suc_ℤ r.recv_max_seq → got r.expect_seq ≡ false
  pub beyond : (j : ℕ) → suc_ℤ r.recv_max_seq ≤ j → got j ≡ false
  pub top : (m : ℕ) → r.recv_max_seq ≡ pos m → got m ≡ true
  pub within : suc_ℤ r.recv_max_seq ≤ n
  pub counted : r.recv_num ≡ count_below got n

pub count_below_nothing : (n : ℕ) → count_below (λ _. false) n ≡ 0
count_below_nothing zero = refl
count_below_nothing (suc n) = omega (arith, count_below_nothing n)

pub init-Tracks : (n : ℕ) → Tracks n (λ _. false) init
init-Tracks n = record {
  covers = tt;
  reach = refl;
  below = λ j h. absurd (omega arith);
  front = λ h. absurd (omega arith);
  beyond = λ j h. refl;
  top = λ m h. cc;
  within = omega arith;
  counted = sym (count_below_nothing n);
}

pub count_below-congr :
    (got have : ℕ → Bool) (n : ℕ)
    → ((j : ℕ) → j < n → got j ≡ have j)
    → count_below got n ≡ count_below have n
count_below-congr got have zero same = refl
count_below-congr got have (suc n) same =
    ground (arith, same n (omega arith), count_below-congr got have n (λ j h. same j (omega arith)))

-- A number that is new raises the count by one.
pub count_below-insert :
    (got : ℕ → Bool) (id n : ℕ)
    → id < n
    → got id ≡ false
    → count_below (insert id got) n ≡ count_below got n + 1
count_below-insert got id zero h new = absurd (omega arith)
count_below-insert got id (suc n) h new = elim (Bool-cases (n == id)) [
  | inl here ↦ ground (
    arith,
    count_below-congr got (insert id got) n (λ j b. ground arith),
    ap got {x = n} {y = id},
  )
  | inr other ↦ ground (arith, count_below-insert got id n)
]

-- Inserting a number that is there changes nothing.
pub insert_old : (got : ℕ → Bool) (id j : ℕ) → got id ≡ true → got j ≡ insert id got j
insert_old got id j old = ground (arith, ap got {x = j} {y = id})

pub Tracks-congr :
    (n : ℕ) (got have : ℕ → Bool) (r : Receiver)
    → ((j : ℕ) → got j ≡ have j)
    → Tracks n got r
    → Tracks n have r
Tracks-congr n got have r same t = record {
  covers = Covers-congr got have r.expect_seq r.unrecv (λ j h k. same j) t.covers;
  reach = t.reach;
  below = λ j h. sym (same j) ∙ t.below j h;
  front = λ h. sym (same _) ∙ t.front h;
  beyond = λ j h. sym (same j) ∙ t.beyond j h;
  top = λ m h. sym (same m) ∙ t.top m h;
  within = t.within;
  counted = t.counted ∙ count_below-congr got have n (λ j h. same j);
}

-- The flag of the request is no part of the bookkeeping.
pub Tracks-start :
    (n : ℕ) (got : ℕ → Bool) (r : Receiver) (b : Bool)
    → Tracks n got r
    → Tracks n got (record r { start_restran = b })
Tracks-start n got r b t = record {
  covers = t.covers;
  reach = t.reach;
  below = t.below;
  front = t.front;
  beyond = t.beyond;
  top = t.top;
  within = t.within;
  counted = t.counted;
}
