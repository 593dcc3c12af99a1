-- ===== src/Stream/Receive/Phase.antt =====
-- The two phases of a reception: before the last block has arrived, and after the first request.
use file_transfer_cmd.Prelude.{
  All, Bool, Bool-cases, List, [], ap, arith, false, inl, inr, length, ltb, refl, some, suc, sym,
  true, zero, ℕ, ◌-◌, ◌<◌, ◌^◌, ◌∙◌, ◌∷◌, ◌≡◌, ◌≤◌,
}
use file_transfer_cmd.Prelude.Int.{suc_ℤ}
use file_transfer_cmd.Stream.Receive.{
  Receiver, RecvItem, fill, mark_late, receive, receive_all, skip_ahead,
}
use file_transfer_cmd.Stream.Receive.Covers.{count_below, insert}
use file_transfer_cmd.Stream.Receive.Request.{length-missing-add-count, missing}
use file_transfer_cmd.Stream.Receive.Step.{receive-Tracks}
use file_transfer_cmd.Stream.Receive.Tracks.{Tracks}

-- A batch of numbers into the set.
abbrev pub insert_all : List ℕ → (ℕ → Bool) → ℕ → Bool
insert_all [] got = got
insert_all (id ∷ ids) got = insert_all ids (insert id got)

pub insert_all-keeps :
    (ids : List ℕ) (got : ℕ → Bool) (j : ℕ) → got j ≡ true → insert_all ids got j ≡ true
insert_all-keeps [] got j h = h
insert_all-keeps (id ∷ ids) got j h = insert_all-keeps ids (insert id got) j (ground arith)

-- What a completion does not touch.
pub record SameRequest (r r' : Receiver) : Type 0 where
  pub first : r'.first_restran ≡ r.first_restran
  pub start : r'.start_restran ≡ r.start_restran
  pub space : r'.restran_space ≡ r.restran_space

fill-SameRequest :
    (id : ℕ) (r r' : Receiver) (q : List RecvItem) → fill id r q ≡ some r' → SameRequest r r'
unfolding fill
fill-SameRequest id r r' [] h = cc
fill-SameRequest id r r' (x ∷ xs) h = ground arith

mark_late-SameRequest : (id : ℕ) (r r' : Receiver) → mark_late id r ≡ some r' → SameRequest r r'
unfolding mark_late
mark_late-SameRequest id r r' h = ground arith

receive-SameRequest : (id : ℕ) (r r' : Receiver) → receive id r ≡ some r' → SameRequest r r'
unfolding receive skip_ahead
receive-SameRequest id r r' h =
    ground (arith, fill-SameRequest id r r' r.unrecv, mark_late-SameRequest id r r')

-- A batch of completions with numbers below `n` < 2 ^ 31, in any order and with any repetitions,
-- passes every assert, and the bookkeeping is afterwards that of the set with these numbers added;
-- the request's flags and buffer are untouched.
pub receive_all-Tracks :
    (n : ℕ) (got : ℕ → Bool) (r : Receiver) (ids : List ℕ)
    → n < 2 ^ 31
    → Tracks n got r
    → All (λ i. i < n) ids
    → (r' : Receiver) × (receive_all ids r ≡ some r')
      × Tracks n (insert_all ids got) r'
      × SameRequest r r'
unfolding receive_all
receive_all-Tracks n got r [] small t a =
    (r, refl, t, record { first = refl; start = refl; space = refl })
receive_all-Tracks n got r (id ∷ ids) small t (lt, a) =
    let (r₁, e₁, t₁) = receive-Tracks n got r t id lt small in
    let same = receive-SameRequest id r r₁ e₁ in
    let (r₂, e₂, t₂, s₂) = receive_all-Tracks n (insert id got) r₁ ids small t₁ a in
    (
      r₂,
      rw (e₁, receive_all) e₂,
      t₂,
      record {
        first = s₂.first ∙ same.first;
        start = s₂.start ∙ same.start;
        space = s₂.space ∙ same.space;
      },
    )

-- Before the last block has arrived nothing has been requested.
pub record Fresh (n : ℕ) (got : ℕ → Bool) (r : Receiver) : Type 0 where
  pub tracks : Tracks n got r
  pub first : r.first_restran ≡ true
  pub start : r.start_restran ≡ false
  pub last_out : got (n - 1) ≡ false

-- After the first request the buffer has room for every later one.
pub record Asked (n : ℕ) (got : ℕ → Bool) (r : Receiver) : Type 0 where
  pub tracks : Tracks n got r
  pub first : r.first_restran ≡ false
  pub last_in : got (n - 1) ≡ true
  pub room : length (missing got 0 n) < length r.restran_space

pub full_of_last :
    (n : ℕ) (got : ℕ → Bool) (r : Receiver)
    → 0 < n
    → Tracks n got r
    → got (n - 1) ≡ true
    → suc_ℤ r.recv_max_seq ≡ n
full_of_last n got r h t last = elim (Bool-cases (ltb (suc_ℤ r.recv_max_seq) n)) [
  | inl less ↦ cc (last, t.beyond (n - 1) (ground arith))
  | inr no_less ↦ ground (arith, t.within)
]

pub count_below-le : (got : ℕ → Bool) (n : ℕ) → count_below got n ≤ n
count_below-le got zero = omega arith
count_below-le got (suc n) = ground (arith, count_below-le got n)

pub count_below_mono :
    (got have : ℕ → Bool) (n : ℕ)
    → ((j : ℕ) → got j ≡ true → have j ≡ true)
    → count_below got n ≤ count_below have n
count_below_mono got have zero h = omega arith
count_below_mono got have (suc n) h = ground (arith, h n, count_below_mono got have n h)

-- A full count means that every block is there.
pub all_of_count : (got : ℕ → Bool) (n j : ℕ) → count_below got n ≡ n → j < n → got j ≡ true
all_of_count got zero j h lt = absurd (omega arith)
all_of_count got (suc n) j h lt =
    ground (arith, count_below-le got n, all_of_count got n j, ap got {x = j} {y = n})

pub length-missing_mono :
    (got have : ℕ → Bool) (n : ℕ)
    → ((j : ℕ) → got j ≡ true → have j ≡ true)
    → length (missing have 0 n) ≤ length (missing got 0 n)
length-missing_mono got have n h = omega (
  arith,
  count_below_mono got have n h,
  length-missing-add-count got n,
  length-missing-add-count have n,
)

-- At the end `expect_seq` has reached the number of blocks.
pub expect_of_count :
    (n : ℕ) (got : ℕ → Bool) (r : Receiver)
    → 0 < n
    → Tracks n got r
    → r.recv_num ≡ n
    → r.expect_seq ≡ n
expect_of_count n got r h t c =
    let all : (j : ℕ) → j < n → got j ≡ true =
      λ j lt. all_of_count got n j (sym t.counted ∙ c) lt in
    let full : suc_ℤ r.recv_max_seq ≡ n = full_of_last n got r h t (all (n - 1) (omega arith)) in
    elim (Bool-cases (ltb r.expect_seq n)) [
      | inl less ↦ cc (all r.expect_seq (ground arith), t.front (ground (arith, full)))
      | inr no_less ↦ ground (arith, t.reach, full)
    ]

pub count_below_all :
    (got : ℕ → Bool) (n : ℕ) → ((j : ℕ) → j < n → got j ≡ true) → count_below got n ≡ n
count_below_all got zero h = refl
count_below_all got (suc n) h =
    ground (arith, h n (omega arith), count_below_all got n (λ j lt. h j (omega arith)))
