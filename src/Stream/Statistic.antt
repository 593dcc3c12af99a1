-- ===== src/Stream/Statistic.antt =====
-- StreamControl::statistic: the thread beside the sending loop that reports the rate to the master
-- every 10 ms. What it reads of the clock and of `*bytes`, which the sender writes meanwhile, is given.
use file_transfer_cmd.Prelude.{
  Bool, Bool-cases, List, [], ap, arith, false, if◌then◌else◌, inl, inr, length, length-append, ltb,
  refl, sym, true, ℕ, ◌++◌, ◌+◌, ◌∷◌, ◌≡◌, ◌≤◌, ◌⊎◌,
}
use file_transfer_cmd.Master.{RateInfo}
use file_transfer_cmd.Prelude.Words.{sub64}

-- What a `send` of a report gives: `passed` false is an interruption by a signal (EINTR), after which
-- the thread goes on although the report has not been sent; `broken` is any other failure. A send that
-- is not interrupted takes the whole report.
pub data Sending : Type 0 where
  broken : Sending
  passed : Bool → Sending

-- One round: `*bytes` at the test, whether the time has come, `*bytes` at the rate and at
-- `last_bytes`, and the `send` of the report.
pub record Look : Type 0 where
  pub at_test : ℕ
  pub due : Bool
  pub at_rate : ℕ
  pub at_mark : ℕ
  pub sends : Sending

Sending-cases : (s : Sending) → (s ≡ broken) ⊎ ((b : Bool) × (s ≡ passed b))
Sending-cases broken = inl refl
Sending-cases (passed b) = inr (b, refl)

-- A report that the thread makes, and whether it reaches the master.
pub record Made (D : Type 0) : Type 0 where
  pub info : RateInfo D
  pub reaches : Bool

-- The reports made: `cut_short` by a failure, `watching` when the rounds given run out, `ended` after
-- the last report.
pub data Reports (D : Type 0) : Type 0 where
  cut_short watching ended : List (Made D) → Reports D

-- `mbps` is the rate in Mbps of a number of bytes in one interval, `last_one` is -1. `seq_num` is an
-- int that grows by one in 10 ms; here it has no bound.
module _ {D : Type 0} (mbps : ℕ → D) (last_one : D) where
  unfoldable pub report : ℕ → D → Bool → Made D
  report seq r reaches = record { info = record { seq_num = seq; rate = r }; reaches = reaches }

  -- After the loop.
  unfoldable pub last_report : Sending → ℕ → List (Made D) → Reports D
  last_report broken seq log = cut_short log
  last_report (passed reaches) seq log = ended (log ++ report (seq + 1) last_one reaches ∷ [])

  -- while(*bytes < total)
  unfoldable pub watch : ℕ → Sending → List Look → ℕ → ℕ → List (Made D) → Reports D
  watch total final [] last seq log = watching log
  watch total final (l ∷ ls) last seq log = elim (ltb l.at_test total) [
    | false ↦ last_report final seq log
    | true ↦ elim l.due [
      | false ↦ watch total final ls last seq log
      | true ↦ elim l.sends [
        | broken ↦ cut_short log
        | passed reaches ↦
            watch total final ls l.at_mark (seq + 1)
              (log ++ report (seq + 1) (mbps (sub64 l.at_rate last)) reaches ∷ [])
      ]
    ]
  ]

  -- The whole thread: `first` and `final` are the sends of the first and of the last report.
  unfoldable pub statistic : ℕ → Sending → Sending → List Look → D → Reports D
  statistic total broken final looks zero_rate = cut_short []
  statistic total (passed reaches) final looks zero_rate =
      watch total final looks 0 0 (report 0 zero_rate reaches ∷ [])

-- The reports that reach the master.
abbrev pub arrived : {D : Type 0} → List (Made D) → List (RateInfo D)
arrived [] = []
arrived (m ∷ ms) = if m.reaches then m.info ∷ arrived ms else arrived ms

-- Reports numbered from `k` on.
abbrev pub Numbered : {D : Type 0} → ℕ → List (Made D) → Type 0
Numbered k [] = Unit {0}
Numbered k (m ∷ ms) = (m.info.seq_num ≡ k) × Numbered (k + 1) ms

-- Numbers that rise, from `k` on.
abbrev pub Rising : {D : Type 0} → ℕ → List (RateInfo D) → Type 0
Rising k [] = Unit {0}
Rising k (r ∷ rs) = (k ≤ r.seq_num) × Rising (r.seq_num + 1) rs

abbrev pub IsSequence : {D : Type 0} → List (Made D) → Type 0
IsSequence log = Numbered 0 log × Rising 0 (arrived log)

-- The reports of a transfer; `final` is the send of the last one.
abbrev pub IsReported : {D : Type 0} → D → Sending → Reports D → Type 0
IsReported last_one final (cut_short log) = IsSequence log
IsReported last_one final (watching log) = IsSequence log
IsReported {D} last_one final (ended log) =
    IsSequence log
    × ((before : List (Made D)) × (reaches : Bool) × (final ≡ passed reaches)
        × (log
            ≡ before
              ++ record {
                info = record { seq_num = length before; rate = last_one };
                reaches = reaches;
              }
                ∷ []))

Numbered-append :
    {D : Type 0} (k : ℕ) (ms : List (Made D)) (m : Made D)
    → Numbered k ms
    → m.info.seq_num ≡ k + length ms
    → Numbered k (ms ++ m ∷ [])
Numbered-append k [] m h e = (omega (arith, e), tt)
Numbered-append k (x ∷ ms) m (s, h) e = (s, Numbered-append (k + 1) ms m h (omega (arith, e)))

Rising-lower : {D : Type 0} (j k : ℕ) (rs : List (RateInfo D)) → j ≤ k → Rising k rs → Rising j rs
Rising-lower j k [] h r = tt
Rising-lower j k (x ∷ rs) h (b, r) = (omega arith, r)

-- Reports in a row lose nothing of their order where some do not arrive.
Numbered-Rising : {D : Type 0} (k : ℕ) (ms : List (Made D)) → Numbered k ms → Rising k (arrived ms)
Numbered-Rising k [] h = tt
Numbered-Rising k (m ∷ ms) (s, h) = elim (Bool-cases m.reaches) [
  | inl here ↦ rw here (
    omega (arith, s),
    Rising-lower (m.info.seq_num + 1) (k + 1) (arrived ms) (omega (arith, s))
        (Numbered-Rising (k + 1) ms h),
  )
  | inr gone ↦
      rw gone (Rising-lower k (k + 1) (arrived ms) (omega arith) (Numbered-Rising (k + 1) ms h))
]

Numbered-IsSequence : {D : Type 0} (log : List (Made D)) → Numbered 0 log → IsSequence log
Numbered-IsSequence log h = (h, Numbered-Rising 0 log h)

module _ {D : Type 0} (mbps : ℕ → D) (last_one : D) where
  last_report-IsReported :
      (final : Sending) (seq : ℕ) (log : List (Made D))
      → Numbered 0 log
      → length log ≡ seq + 1
      → IsReported last_one final (last_report mbps last_one final seq log)
  unfolding last_report report
  last_report-IsReported broken seq log h e = Numbered-IsSequence log h
  last_report-IsReported (passed reaches) seq log h e =
      let mark : ℕ → Made D =
        λ k. record { info = record { seq_num = k; rate = last_one }; reaches = reaches } in
      (
        Numbered-IsSequence (log ++ mark (seq + 1) ∷ [])
            (Numbered-append 0 log (mark (seq + 1)) h (omega (arith, e))),
        (log, reaches, refl, ap (λ k. log ++ mark k ∷ []) (sym e)),
      )

  watch-IsReported :
      (total : ℕ) (final : Sending) (ls : List Look) (last seq : ℕ) (log : List (Made D))
      → Numbered 0 log
      → length log ≡ seq + 1
      → IsReported last_one final (watch mbps last_one total final ls last seq log)
  unfolding watch report
  watch-IsReported total final [] last seq log h e = Numbered-IsSequence log h
  watch-IsReported total final (l ∷ ls) last seq log h e = elim (Bool-cases (ltb l.at_test total)) [
    | inr over ↦ rw (over, watch) (last_report-IsReported final seq log h e)
    | inl more ↦
        rw (more, watch)
          (elim (Bool-cases l.due) [
            | inr early ↦ rw early (watch-IsReported total final ls last seq log h e)
            | inl due ↦ rw due (elim (Sending-cases l.sends) [
              | inl fails ↦ rw fails (Numbered-IsSequence log h)
              | inr (reaches, sent) ↦
                  let m : Made D =
                    report mbps last_one (seq + 1) (mbps (sub64 l.at_rate last)) reaches in
                  rw sent (
                    watch-IsReported total final ls l.at_mark (seq + 1) (log ++ m ∷ [])
                      (Numbered-append 0 log m h (omega (arith, e)))
                      (omega (arith, e, length-append log (m ∷ []))))
            ])
          ])
  ]

-- However the sender's count and the clock go on, and whichever sends are interrupted by a signal: the
-- reports that the thread makes are numbered 0, 1, 2, … without a gap, and those that reach the master
-- have rising numbers. When the thread has come to its end, the last report made is the mark for the
-- end, with the next number, and it reaches the master exactly when its send was not interrupted.
pub statistic-IsReported :
    {D : Type 0} (mbps : ℕ → D) (last_one zero_rate : D) (total : ℕ) (first final : Sending)
    (looks : List Look)
    → IsReported last_one final (statistic mbps last_one total first final looks zero_rate)
unfolding statistic report
statistic-IsReported mbps last_one zero_rate total broken final looks = (tt, tt)
statistic-IsReported mbps last_one zero_rate total (passed reaches) final looks =
    watch-IsReported mbps last_one total final looks 0 0
      (report mbps last_one 0 zero_rate reaches ∷ []) (refl, tt) refl
