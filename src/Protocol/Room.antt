-- ===== src/Protocol/Room.antt =====
-- StreamControl: the sender takes up a request exactly when it has nothing left to send. The words
-- of every request fit in the buffer that the first one allocated, since requests never grow.
use file_transfer_cmd.Prelude.{
  Bool, Bool-cases, List, Option-cases, [], ap, arith, if◌then◌else◌, inl, inr, length,
  length-append, none, not, refl, some, subst, suc, sym, true, zero, ℕ, ◌&&◌, ◌*◌, ◌++◌, ◌+◌, ◌-◌,
  ◌<◌, ◌==◌, ◌^◌, ◌∙◌, ◌∷◌, ◌≡◌, ◌≤◌,
}
use file_transfer_cmd.Protocol.{Step, System, ask, receive_on, send_on, take_up}
use file_transfer_cmd.Protocol.End.{serve-begins}
use file_transfer_cmd.Protocol.Kept.{Inv, after_poll-keeps}
use file_transfer_cmd.Protocol.Receiving.{ask-Phase, good_round}
use file_transfer_cmd.Protocol.Safe.{oldest, zero_stops}
use file_transfer_cmd.Stream.Receive.{count}
use file_transfer_cmd.Stream.Receive.Loop.{after_poll}
use file_transfer_cmd.Stream.Receive.Phase.{length-missing_mono}
use file_transfer_cmd.Stream.Receive.Request.{missing}
use file_transfer_cmd.Stream.Receive.Round.{Poll}
use file_transfer_cmd.Stream.Send.{
  SendRound, Sender, WorkPoll, World, asked, bad, begin_restran, complete, complete_all, done,
  end_round, failed, failing, fault, fill_space, lost, must_wait, next_block, post, push, reap,
  running, send_round, serve, silent, starved, stopped, try_send,
}
use file_transfer_cmd.Stream.Send.Flight.{complete-cases}
use file_transfer_cmd.Stream.Send.Requests.{fill_space-shape}
use file_transfer_cmd.Stream.Send.Rounds.{begin_restran-cases}
use mathlib.Core.Option.{some-injective}

-- Each request has at most `top` words, no more than the one before it, and no fewer than `low`.
abbrev pub Falling : ℕ → ℕ → List (List ℕ) → Type 0
Falling top low [] = low ≤ top
Falling top low (m ∷ ms) = (length m ≤ top + 1) × (1 ≤ length m) × Falling (length m - 1) low ms

Falling-wider :
    (top wide low : ℕ) (ms : List (List ℕ)) → top ≤ wide → Falling top low ms → Falling wide low ms
Falling-wider top wide low [] h f = omega arith
Falling-wider top wide low (m ∷ ms) h (short, some_word, f) = (omega arith, some_word, f)

Falling-lower :
    (top low less : ℕ) (ms : List (List ℕ)) → less ≤ low → Falling top low ms → Falling top less ms
Falling-lower top low less [] h f = omega arith
Falling-lower top low less (m ∷ ms) h (short, some_word, f) =
    (short, some_word, Falling-lower (length m - 1) low less ms h f)

Falling-append :
    (top : ℕ) (l : List ℕ) (ms : List (List ℕ))
    → Falling top (length l) ms
    → Falling top (length l) (ms ++ (length l ∷ l) ∷ [])
Falling-append top l [] f = (omega arith, omega arith, omega arith)
Falling-append top l (m ∷ ms) (short, some_word, f) =
    (short, some_word, Falling-append (length m - 1) l ms f)

-- The words that the sender has room for: as many as there are blocks before its first request.
abbrev pub room : ℕ → Sender → ℕ
room n s = if s.first_restran then n else length s.restran_space

-- A round's sending leaves the room as it is.
abbrev SameRoom : ℕ → Sender → SendRound → Type 0
SameRoom n s (running s') = room n s' ≡ room n s
SameRoom n s out = Unit {0}

SameRoom-from :
    (n : ℕ) (s s' : Sender) (out : SendRound)
    → room n s' ≡ room n s
    → SameRoom n s' out
    → SameRoom n s out
SameRoom-from n s s' (running s'') e h = h ∙ e
SameRoom-from n s s' fault e h = tt
SameRoom-from n s s' failing e h = tt
SameRoom-from n s s' lost e h = tt
SameRoom-from n s s' starved e h = tt
SameRoom-from n s s' (stopped s'') e h = tt

complete_all-room : (n k : ℕ) (s s' : Sender) → complete_all k s ≡ some s' → room n s' ≡ room n s
unfolding complete_all
complete_all-room n zero s s' e = ap (room n) (sym (some-injective _ _ e))
complete_all-room n (suc k) s s' e = elim (Option-cases (complete s)) [
  | inl gone ↦ ground arith
  | inr (s₁, e₁) ↦
      let (b, bs, q, z) = complete-cases s s.uncomplete refl e₁ in
      complete_all-room n k s₁ s' (ground arith) ∙ ap (room n) z
]

reap-SameRoom :
    (n nbuf : ℕ) (ps : List WorkPoll) (s : Sender) → SameRoom n s (end_round true (reap nbuf ps s))
unfolding reap end_round
reap-SameRoom n nbuf [] s = tt
reap-SameRoom n nbuf (failed ∷ ps) s = tt
reap-SameRoom n nbuf (bad ∷ ps) s = tt
reap-SameRoom n nbuf (done k ∷ ps) s = elim (Option-cases (complete_all k s)) [
  | inl gone ↦ rw (gone, reap) tt
  | inr (s', e) ↦
      let same : room n s' ≡ room n s = complete_all-room n k s s' e in
      rw (e, reap)
        (elim (Bool-cases (must_wait nbuf s')) [
          | inl wait ↦ rw wait (SameRoom-from n s s' _ same (reap-SameRoom n nbuf ps s'))
          | inr go ↦ rw go same
        ])
]

post-room : (n block_size nbuf : ℕ) (s : Sender) → room n (post true block_size nbuf s) ≡ room n s
unfolding post push next_block
post-room n block_size nbuf s = ground arith

try_send-SameRoom :
    (n block_size nbuf : ℕ) (w : World) (s : Sender)
    → SameRoom n s (try_send true block_size nbuf w s)
unfolding try_send
try_send-SameRoom n block_size nbuf w s = elim (Bool-cases w.idle_rate) [
  | inl calm ↦ rw calm refl
  | inr busy ↦ rw busy (elim (Bool-cases w.due) [
    | inr early ↦ rw early (reap-SameRoom n nbuf w.polls s)
    | inl due ↦ rw due (elim (Bool-cases (not s.start_restran && s.bytes_left == 0)) [
      | inl none_left ↦ rw none_left refl
      | inr more ↦ rw more (elim (Bool-cases w.posted) [
        | inr unposted ↦ rw unposted tt
        | inl ok ↦ rw ok (
            SameRoom-from n s (post true block_size nbuf s) _ (post-room n block_size nbuf s)
              (reap-SameRoom n nbuf w.polls (post true block_size nbuf s)))
      ])
    ])
  ])
]

fill_space-length :
    (words space : List ℕ) (first : Bool) (k : ℕ) {out : List ℕ}
    → length words ≡ suc k
    → suc k < 2 ^ 30
    → fill_space first (suc k) words space ≡ some out
    → length words ≤ length out
fill_space-length words space first k h b e =
    let (rest, z) = fill_space-shape (suc k) words space first h b e in
    omega (arith, ap length z, length-append words rest)

-- After a request is taken up there is room for every later one.
begin_restran-room :
    (n block_size k : ℕ) (words : List ℕ) (s s' : Sender)
    → length words ≡ suc k
    → suc k < 2 ^ 30
    → begin_restran block_size (suc k) words s ≡ some s'
    → length words ≤ room n s'
begin_restran-room n block_size k words s s' h few e =
    let (space, z, still, filled, spent) = begin_restran-cases block_size (suc k) words s e in
    subst (λ u. length words ≤ room n u) (sym z)
      (fill_space-length words s.restran_space s.first_restran k h few filled)

abbrev pub IsRoomy : ℕ → System → Type 0
IsRoomy n t = Falling (room n t.sender) (length (missing t.got 0 n)) t.pending

silent_round-room :
    (n block_size nbuf : ℕ) (w : World) (s s' : Sender)
    → w.control ≡ silent
    → send_round true block_size nbuf w s ≡ running s'
    → room n s' ≡ room n s
unfolding send_round serve
silent_round-room n block_size nbuf w s s' c e =
    subst (SameRoom n s) (sym (ap (λ k. serve block_size nbuf k w s) c) ∙ e)
      (try_send-SameRoom n block_size nbuf w s)

serve-refused :
    (block_size nbuf k : ℕ) (words : List ℕ) (w : World) (s s' : Sender)
    → begin_restran block_size (suc k) words s ≡ none
    → ¬ (serve block_size nbuf (asked (suc k) words) w s ≡ running s')
unfolding serve
serve-refused block_size nbuf k words w s s' gone e = ground arith

asked_round-room :
    (n block_size nbuf k : ℕ) (words : List ℕ) (w : World) (s s' : Sender)
    → length words ≡ suc k
    → suc k < 2 ^ 30
    → w.control ≡ asked (suc k) words
    → send_round true block_size nbuf w s ≡ running s'
    → length words ≤ room n s'
unfolding send_round
asked_round-room n block_size nbuf k words w s s' h few c e =
    let e' : serve block_size nbuf (asked (suc k) words) w s ≡ running s' =
      sym (ap (λ j. serve block_size nbuf j w s) c) ∙ e in
    elim (Option-cases (begin_restran block_size (suc k) words s)) [
      | inl gone ↦ absurd (serve-refused block_size nbuf k words w s s' gone e')
      | inr (s₁, b) ↦
          let same : room n s' ≡ room n s₁ =
            subst (SameRoom n s₁) (sym (serve-begins block_size nbuf k words w s s₁ b) ∙ e')
              (try_send-SameRoom n block_size nbuf w s₁) in
          omega (arith, same, begin_restran-room n block_size k words s s₁ h few b)
    ]

module _ (block_size nbuf n : ℕ) (some_block : 0 < block_size) (some_buf : 0 < nbuf)
    (small : nbuf < 2 ^ 32) (pos_n : 0 < n) (few : n < 2 ^ 30)
    (fits : n * block_size < 2 ^ 64) where
  lower :
      (t : System) (p : Poll)
      → IsRoomy n t
      → Falling (room n t.sender) (length (missing (after_poll p t.got) 0 n)) t.pending
  lower t p f =
      Falling-lower (room n t.sender) (length (missing t.got 0 n))
        (length (missing (after_poll p t.got) 0 n)) t.pending
        (length-missing_mono t.got (after_poll p t.got) n (after_poll-keeps p t.got)) f

  taken :
      (t : System) (w : World) (s : Sender) (k : ℕ) (words : List ℕ) (rest : List (List ℕ))
      → length words ≡ k
      → length words ≤ n
      → t.pending ≡ (k ∷ words) ∷ rest
      → w.control ≡ asked k words
      → send_round true block_size nbuf w t.sender ≡ running s
      → IsRoomy n t
      → Falling (room n s) (length (missing t.got 0 n)) rest
  taken t w s zero words rest h short p c e f =
      absurd (
        zero_stops block_size nbuf n some_block some_buf small pos_n few fits w t.sender s words c
          e)
  taken t w s (suc k) words rest h most p c e f =
      let (short, some_word, f') =
        subst (Falling (room n t.sender) (length (missing t.got 0 n))) p f in
      Falling-wider (length words) (room n s) (length (missing t.got 0 n)) rest
        (asked_round-room n block_size nbuf k words w t.sender s h (omega (arith, h, most, few)) c
          e)
        (subst (λ j. Falling j (length (missing t.got 0 n)) rest) (omega arith) f')

  pub Step-IsRoomy :
      {t u : System}
      → Step block_size nbuf n t u
      → Inv block_size nbuf n t
      → IsRoomy n t
      → IsRoomy n u
  Step-IsRoomy (send_on t w s c e) v f =
      subst (λ j. Falling j (length (missing t.got 0 n)) t.pending)
        (sym (silent_round-room n block_size nbuf w t.sender s c e)) f
  Step-IsRoomy (take_up t w s k words rest p c e) v f =
      let (count, small_list, below, zero_all, qs) =
        oldest block_size nbuf n some_block some_buf small pos_n few fits t k words rest v p in
      taken t w s k words rest count small_list p c e f
  Step-IsRoomy (receive_on t p r lt c e) v f = lower t p f
  Step-IsRoomy (ask t p r m lt c e) v f =
      let now : ℕ → Bool = after_poll p t.got in
      let (a, q, shape) =
        ask-Phase block_size nbuf n some_block some_buf small pos_n few fits now r m _ e
          (good_round block_size nbuf n some_block some_buf small pos_n few fits t p v c) in
      subst (λ k. Falling (room n t.sender) (length (missing now 0 n)) (t.pending ++ k ∷ []))
        (sym shape) (Falling-append (room n t.sender) (missing now 0 n) t.pending (lower t p f))
