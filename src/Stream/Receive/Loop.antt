-- ===== src/Stream/Receive/Loop.antt =====
-- StreamControl::postRecvFile: the loop over its polls, and what a run without failures brings.
use file_transfer_cmd.Prelude.{
  All, Bool, List, [], false, ltb, none, refl, some, true, ℕ, ◌++◌, ◌-◌, ◌<◌, ◌∷◌, ◌≡◌,
}
use file_transfer_cmd.Stream.Receive.{Receiver}
use file_transfer_cmd.Stream.Receive.Phase.{Asked, Fresh, insert_all, insert_all-keeps}
use file_transfer_cmd.Stream.Receive.Round.{
  Poll, Reception, broken, completed, failed, finished, idle, receive_file, round, running, waiting,
}
use file_transfer_cmd.Stream.Receive.Tracks.{Tracks}

-- What a poll adds to the set.

-- What a poll adds to the set.
abbrev pub after_poll : Poll → (ℕ → Bool) → ℕ → Bool
after_poll (completed ids) got = insert_all ids got
after_poll failed got = got
after_poll (idle late) got = got

-- All that the polls bring.
abbrev pub arrived : List (Poll × Bool) → (ℕ → Bool) → ℕ → Bool
arrived [] got = got
arrived ((p, sent) ∷ ps) got = arrived ps (after_poll p got)

-- A poll of a run without failures: every number is in range, a request can be sent, and a
-- timeout comes only after the last block. `got` is what has arrived before.
abbrev pub IsTimely : ℕ → (ℕ → Bool) → Poll → Type 0
IsTimely n got failed = ⊥
IsTimely n got (idle late) = late ≡ true → got (n - 1) ≡ true
IsTimely n got (completed ids) = All (λ i. i < n) ids

abbrev pub AllTimely : ℕ → (ℕ → Bool) → List (Poll × Bool) → Type 0
AllTimely n got [] = Unit {0}
AllTimely n got ((p, sent) ∷ ps) =
    (sent ≡ true) × IsTimely n got p × AllTimely n (after_poll p got) ps

-- No assert fails and no access is out of range. If the loop ends, every block is there and the
-- last request sent is the one for zero blocks; while it waits, the bookkeeping is true to what
-- has arrived and something is missing.
abbrev pub Sound : ℕ → (ℕ → Bool) → Reception → Type 0
Sound n got (broken out log) = ⊥
Sound n got (waiting r log) = Tracks n got r × (r.recv_num < n)
Sound n got (finished r log) =
    (r.recv_num ≡ n)
    × ((j : ℕ) → j < n → got j ≡ true)
    × ((before : List (List ℕ)) × (log ≡ before ++ (0 ∷ []) ∷ []))

-- Between rounds.
pub data Phase (n : ℕ) (got : ℕ → Bool) (r : Receiver) : Type 0 where
  fresh : Fresh n got r → Phase n got r
  asked : Asked n got r → r.start_restran ≡ false → Phase n got r

pub arrived-keeps :
    (ps : List (Poll × Bool)) (got : ℕ → Bool) (j : ℕ) → got j ≡ true → arrived ps got j ≡ true
arrived-keeps [] got j h = h
arrived-keeps ((failed, sent) ∷ ps) got j h = arrived-keeps ps got j h
arrived-keeps ((idle late, sent) ∷ ps) got j h = arrived-keeps ps got j h
arrived-keeps ((completed ids, sent) ∷ ps) got j h =
    arrived-keeps ps (insert_all ids got) j (insert_all-keeps ids got j h)

module _ (n : ℕ) where
  pub receive_file-nil :
      (r : Receiver) (log : List (List ℕ))
      → ltb r.recv_num n ≡ true
      → receive_file true n [] r log ≡ waiting r log
  unfolding receive_file
  receive_file-nil r log h = rw (h, receive_file) refl

  pub receive_file-done :
      (ps : List (Poll × Bool)) (r : Receiver) (log : List (List ℕ))
      → ltb r.recv_num n ≡ false
      → receive_file true n ps r log ≡ finished r log
  unfolding receive_file
  receive_file-done [] r log h = rw (h, receive_file) refl
  receive_file-done ((p, sent) ∷ ps) r log h = rw (h, receive_file) refl

  pub receive_file-quiet :
      (p : Poll) (sent : Bool) (ps : List (Poll × Bool)) (r r' : Receiver) (log : List (List ℕ))
      → ltb r.recv_num n ≡ true
      → round true n p sent r ≡ running r' none
      → receive_file true n ((p, sent) ∷ ps) r log ≡ receive_file true n ps r' log
  unfolding receive_file
  receive_file-quiet p sent ps r r' log h e = rw (h, receive_file) (rw e refl)

  pub receive_file-asks :
      (p : Poll) (sent : Bool) (ps : List (Poll × Bool)) (r r' : Receiver) (m : List ℕ)
      (log : List (List ℕ))
      → ltb r.recv_num n ≡ true
      → round true n p sent r ≡ running r' (some m)
      → receive_file true n ((p, sent) ∷ ps) r log ≡ receive_file true n ps r' (log ++ m ∷ [])
  unfolding receive_file
  receive_file-asks p sent ps r r' m log h e = rw (h, receive_file) (rw e refl)
