-- ===== src/Setup/QueuePair.antt =====
-- StreamControl::changeQPState: the queue pair goes from RESET over INIT and RTR to RTS. The driver,
-- which answers ibv_modify_qp, is a parameter.
use file_transfer_cmd.Prelude.{
  Bool, List, Option, [], false, if◌then◌else◌, none, refl, some, true, ℕ, ◌&&◌, ◌==◌, ◌||◌, ◌∷◌,
  ◌≡◌,
}

-- The kinds of queue pair, the states, and the bits of the attribute mask.
pub data Transport : Type 0 where
  uc rc : Transport

pub data QpState : Type 0 where
  qps_reset qps_init qps_rtr qps_rts : QpState

pub data Attr : Type 0 where
  state pkey_index port access_flags av path_mtu dest_qpn rq_psn : Attr
  max_dest_rd_atomic min_rnr_timer sq_psn retry_cnt rnr_retry timeout max_qp_rd_atomic : Attr

-- One call of ibv_modify_qp.
pub record Modify : Type 0 where
  pub target : QpState
  pub mask : List Attr

-- createLucpContext
unfoldable pub transport : Bool → Transport
transport use_message = if use_message then uc else rc

pub to_init : Modify
to_init = record { target = qps_init; mask = state ∷ pkey_index ∷ port ∷ access_flags ∷ [] }

pub to_rtr : Bool → Modify
to_rtr use_message = record {
  target = qps_rtr;
  mask =
      state
      ∷ av
      ∷ path_mtu
      ∷ dest_qpn
      ∷ rq_psn
      ∷ (if use_message then [] else max_dest_rd_atomic ∷ min_rnr_timer ∷ []);
}

pub to_rts : Bool → Modify
to_rts use_message = record {
  target = qps_rts;
  mask =
      state
      ∷ sq_psn
      ∷ (if use_message then [] else retry_cnt ∷ rnr_retry ∷ timeout ∷ max_qp_rd_atomic ∷ []);
}

-- The state that the queue pair ends in, and whether the function returns 0.
pub modify_all : (QpState → Modify → Bool) → List Modify → QpState → Bool × QpState
modify_all driver [] now = (true, now)
modify_all driver (m ∷ ms) now =
    let next = modify_all driver ms m.target in if driver now m then next else (false, now)

pub change_qp_state : Bool → (QpState → Modify → Bool) → QpState → Bool × QpState
change_qp_state use_message driver now =
    modify_all driver (to_init ∷ to_rtr use_message ∷ to_rts use_message ∷ []) now

abbrev code : Attr → ℕ
code state = 0
code pkey_index = 1
code port = 2
code access_flags = 3
code av = 4
code path_mtu = 5
code dest_qpn = 6
code rq_psn = 7
code max_dest_rd_atomic = 8
code min_rnr_timer = 9
code sq_psn = 10
code retry_cnt = 11
code rnr_retry = 12
code timeout = 13
code max_qp_rd_atomic = 14

abbrev has : List Attr → Attr → Bool
has [] a = false
has (x ∷ xs) a = code x == code a || has xs a

abbrev covers : List Attr → List Attr → Bool
covers mask [] = true
covers mask (a ∷ others) = has mask a && covers mask others

-- The attributes that the manual of ibv_modify_qp demands for each move of each transport.
abbrev pub demanded : Transport → QpState → QpState → Option (List Attr)
demanded t qps_reset qps_init = some (state ∷ pkey_index ∷ port ∷ access_flags ∷ [])
demanded uc qps_init qps_rtr = some (state ∷ av ∷ path_mtu ∷ dest_qpn ∷ rq_psn ∷ [])
demanded rc qps_init qps_rtr =
    some (state ∷ av ∷ path_mtu ∷ dest_qpn ∷ rq_psn ∷ max_dest_rd_atomic ∷ min_rnr_timer ∷ [])
demanded uc qps_rtr qps_rts = some (state ∷ sq_psn ∷ [])
demanded rc qps_rtr qps_rts =
    some (state ∷ sq_psn ∷ timeout ∷ retry_cnt ∷ rnr_retry ∷ max_qp_rd_atomic ∷ [])
demanded t from to = none

-- Just these attributes: all that is demanded, and, since a UC queue pair refuses the others, no
-- more.
abbrev pub exact : Transport → QpState → Modify → Bool
exact t from m = elim (demanded t from m.target) [
  | none ↦ false
  | some needed ↦ covers m.mask needed && covers needed m.mask
]

-- A driver that accepts the documented moves.
abbrev pub IsDocumented : Transport → (QpState → Modify → Bool) → Type 0
IsDocumented t driver = (from : QpState) (m : Modify) → exact t from m ≡ true → driver from m ≡ true

-- With a driver that accepts the documented moves, a fresh queue pair of the mode's transport
-- becomes ready to send, in both modes.
pub change_qp_state_ready :
    (use_message : Bool) (driver : QpState → Modify → Bool)
    → IsDocumented (transport use_message) driver
    → change_qp_state use_message driver qps_reset ≡ (true, qps_rts)
unfolding change_qp_state modify_all to_init to_rtr to_rts transport
change_qp_state_ready true driver h =
    rw (h qps_reset to_init refl, h qps_init (to_rtr true) refl, h qps_rtr (to_rts true) refl) refl
change_qp_state_ready false driver h =
    rw (h qps_reset to_init refl, h qps_init (to_rtr false) refl, h qps_rtr (to_rts false) refl)
      refl
