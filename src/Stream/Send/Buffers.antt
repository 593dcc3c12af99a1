-- ===== src/Stream/Send/Buffers.antt =====
-- StreamControl::postSendFile: the buffer that a round may write.
use file_transfer_cmd.Prelude.{ap, arith, ℕ, ◌%◌, ◌+◌, ◌-◌, ◌<◌, ◌∙◌, ◌≢◌, ◌≤◌}
use file_transfer_cmd.Prelude.Mod.{mod_apart}
use file_transfer_cmd.Stream.Send.{Sender}
use file_transfer_cmd.Stream.Send.Flight.{Accounts}

-- In the state of a settled round the buffer that is written next carries no block in flight: those
-- are the blocks `i - outstanding` up to `i`, and block `k` lies in buffer `k % nbuf`.
pub current_free :
    (block_size nbuf limit k : ℕ) (s : Sender)
    → limit < nbuf
    → Accounts block_size nbuf limit s
    → s.i ≤ k + s.outstanding
    → k < s.i
    → k % nbuf ≢ s.current
current_free block_size nbuf limit k s h a lo hi e =
    mod_apart k (s.i - k) nbuf (omega arith) (omega arith)
      (e ∙ a.here ∙ ap (λ (j : ℕ). j % nbuf) (omega arith))
