-- ===== src/Protocol/Kept.antt =====
-- A transfer in the LUCP mode: what both sides keep, as an invariant of the whole.
use file_transfer_cmd.Prelude.{
  All, Bool, Bool-cases, List, [], arith, get_elem?, inl, inr, length, some, subst, suc, true, zero,
  ℕ, ◌++◌, ◌+◌, ◌<◌, ◌∷◌, ◌≡◌, ◌≤◌,
}
use file_transfer_cmd.Protocol.{System}
use file_transfer_cmd.Stream.Receive.Loop.{Phase, after_poll}
use file_transfer_cmd.Stream.Receive.Phase.{insert_all-keeps}
use file_transfer_cmd.Stream.Receive.Request.{missing}
use file_transfer_cmd.Stream.Receive.Round.{Poll, completed, failed, idle}
use file_transfer_cmd.Stream.Send.{Control, asked, closed, cut, silent}
use file_transfer_cmd.Stream.Send.Flight.{Accounts}
use file_transfer_cmd.Stream.Send.Order.{run_from}
use file_transfer_cmd.Stream.Send.Sequence.{InOrder}
use mathlib.Core.Option.{some-injective}

-- A request that was made when the blocks of `got`, or fewer, had arrived.
pub record IsRequest (n : ℕ) (got : ℕ → Bool) (m : List ℕ) : Type 0 where
  pub words : List ℕ
  pub shape : m ≡ length words ∷ words
  pub below : All (λ i. i < n) words
  pub few : length words ≤ n
  pub zero_all : length words ≡ 0 → (j : ℕ) → j < n → got j ≡ true

-- The last request is the one for zero blocks.
abbrev pub Told : List (List ℕ) → Type 0
Told ms = (before : List (List ℕ)) × (ms ≡ before ++ (0 ∷ []) ∷ [])

pub record Inv (block_size nbuf n : ℕ) (t : System) : Type 0 where
  pub limit : ℕ
  pub lt : limit < nbuf
  pub accounts : Accounts block_size nbuf limit t.sender
  pub all : List ℕ
  pub order : InOrder block_size n all t.sender
  pub below : All (λ i. i < n) all
  pub phase : Phase n t.got t.receiver
  pub requests : All (IsRequest n t.got) t.pending
  pub told : n ≤ t.receiver.recv_num → Told t.pending

pub All-get_elem? {ℓ κ} :
    {A : Type ℓ} (P : A → Type κ) (xs : List A) (k : ℕ) {x : A}
    → All P xs
    → get_elem? xs k ≡ some x
    → P x
All-get_elem? P [] k h e = cc
All-get_elem? P (y ∷ ys) zero h e = subst P (some-injective _ _ e) h.0
All-get_elem? P (y ∷ ys) (suc k) h e = All-get_elem? P ys k h.1 e

pub missing-below : (got : ℕ → Bool) (e k n : ℕ) → e + k ≤ n → All (λ i. i < n) (missing got e k)
missing-below got e zero n h = tt
missing-below got e (suc k) n h = elim (Bool-cases (got e)) [
  | inl have ↦ rw have (missing-below got (suc e) k n (omega arith))
  | inr lacks ↦ rw lacks (omega arith, missing-below got (suc e) k n (omega arith))
]

pub run_from-below : (k m n : ℕ) → k + m ≤ n → All (λ i. i < n) (run_from (λ j. j) k m)
run_from-below k zero n h = tt
run_from-below k (suc m) n h = (omega arith, run_from-below (suc k) m n (omega arith))

pub after_poll-keeps :
    (p : Poll) (got : ℕ → Bool) (j : ℕ) → got j ≡ true → after_poll p got j ≡ true
after_poll-keeps failed got j h = h
after_poll-keeps (idle late) got j h = h
after_poll-keeps (completed ids) got j h = insert_all-keeps ids got j h

abbrev pub count_of : Control → ℕ
count_of (asked k words) = k
count_of silent = 0
count_of closed = 0
count_of cut = 0

abbrev pub words_of : Control → List ℕ
words_of (asked k words) = words
words_of silent = []
words_of closed = []
words_of cut = []
