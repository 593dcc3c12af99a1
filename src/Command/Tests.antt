-- ===== src/Command/Tests.antt =====
-- Runs of the client's command loop, and the theorems on them.
use file_transfer_cmd.Prelude.{List, [], arith, refl, true, ℕ, ◌∷◌, ◌≡◌}
use file_transfer_cmd.Command.{
  broken_off, bytes, cmd_type, on_connection, receive_block, serve_commands, write_at,
}
use file_transfer_cmd.Command.Pieces.{as_recvs, on_connection_pieces, silent_connection_ends}

-- The command to start with LUCP, a byte alone and then the rest.
abbrev start_pieces : List (List ℕ)
start_pieces = (2 ∷ []) ∷ (0 ∷ 0 ∷ []) ∷ (0 ∷ 9 ∷ 9 ∷ []) ∷ []

commands-run :
    serve_commands 6 (as_recvs start_pieces ∷ (bytes (0 ∷ []) ∷ broken_off ∷ []) ∷ [])
    ≡ (true ∷ [], true)
unfolding serve_commands on_connection receive_block write_at cmd_type
commands-run = refl

on_connection_pieces_example :
    on_connection 6 (as_recvs start_pieces) ≡ cmd_type (2 ∷ 0 ∷ 0 ∷ 0 ∷ 9 ∷ 9 ∷ [])
on_connection_pieces_example =
    on_connection_pieces start_pieces (omega arith, (omega arith, (omega arith, tt)))

silent_connection_ends_example :
    serve_commands 6 ((broken_off ∷ []) ∷ as_recvs start_pieces ∷ []) ≡ ([], true)
silent_connection_ends_example = silent_connection_ends 6 [] (as_recvs start_pieces ∷ [])
