-- ===== src/Protocol.antt =====
-- A transfer in the LUCP mode: StreamControl::postSendFile and StreamControl::postRecvFile together.
-- Data blocks are lost, duplicated and reordered at will; requests come in order over the control
-- socket, which loses none. A round of either side is one step.
pub mod Kept
pub mod Receiving
pub mod Safe
pub mod End
pub mod Room
pub mod Overlap
mod Tests
use file_transfer_cmd.Prelude.{
  All, Bool, List, [], false, get_elem?, none, some, true, ℕ, ◌*◌, ◌++◌, ◌-◌, ◌<◌, ◌∷◌, ◌≡◌,
}
use file_transfer_cmd.Stream.Receive.{Receiver, init}
use file_transfer_cmd.Stream.Receive.Loop.{after_poll}
use file_transfer_cmd.Stream.Receive.Round.{Poll, completed, failed, idle, round, running}
use file_transfer_cmd.Stream.Send.{SendRound, Sender, World, asked, send_round, silent, start}

-- `got` is the set of blocks that have arrived; `pending` holds the requests that the sender has
-- not read yet.
pub record System : Type 0 where
  pub sender : Sender
  pub receiver : Receiver
  pub got : ℕ → Bool
  pub pending : List (List ℕ)

-- Both loops at their heads, for a file of `n` whole blocks.
abbrev pub opening : ℕ → ℕ → List ℕ → System
opening block_size n mem = record {
  sender = start block_size (n * block_size) mem;
  receiver = init;
  got = λ _. false;
  pending = [];
}

-- What a poll of the receiver can bring: blocks that were sent, each any number of times and in any
-- order. A timeout comes only after the last block.
abbrev pub CanPoll : ℕ → System → Poll → Type 0
CanPoll n t failed = ⊥
CanPoll n t (idle late) = late ≡ true → t.got (n - 1) ≡ true
CanPoll n t (completed ids) = All (λ i. (k : ℕ) × (get_elem? t.sender.sent k ≡ some i)) ids

-- The steps of a transfer. The sender takes up the oldest request or finds none yet; the receiver
-- polls while blocks are missing.
pub data Step (block_size nbuf n : ℕ) : System → System → Type 0 where
  send_on :
      (t : System) (w : World) (s : Sender)
      → w.control ≡ silent
      → send_round true block_size nbuf w t.sender ≡ SendRound.running s
      → Step block_size nbuf n t (record t { sender = s })
  take_up :
      (t : System) (w : World) (s : Sender) (k : ℕ) (words : List ℕ) (rest : List (List ℕ))
      → t.pending ≡ (k ∷ words) ∷ rest
      → w.control ≡ asked k words
      → send_round true block_size nbuf w t.sender ≡ SendRound.running s
      → Step block_size nbuf n t (record t { sender = s; pending = rest })
  receive_on :
      (t : System) (p : Poll) (r : Receiver)
      → t.receiver.recv_num < n
      → CanPoll n t p
      → round true n p true t.receiver ≡ running r none
      → Step block_size nbuf n t (record t { receiver = r; got = after_poll p t.got })
  ask :
      (t : System) (p : Poll) (r : Receiver) (m : List ℕ)
      → t.receiver.recv_num < n
      → CanPoll n t p
      → round true n p true t.receiver ≡ running r (some m)
      → Step block_size nbuf n t
          (record t { receiver = r; got = after_poll p t.got; pending = t.pending ++ m ∷ [] })

pub data Reach (block_size nbuf n : ℕ) (from : System) : System → Type 0 where
  at_opening : Reach block_size nbuf n from from
  and_then :
      {t u : System}
      → Reach block_size nbuf n from t
      → Step block_size nbuf n t u
      → Reach block_size nbuf n from u
