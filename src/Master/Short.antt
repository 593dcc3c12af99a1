-- ===== src/Master/Short.antt =====
-- The master with a transfer of few reports.
use file_transfer_cmd.Prelude.{
  Bool, Bool-cases, List, Option-cases, [], ap, arith, false, get_elem?, if◌then◌else◌, inl, inr,
  leb, length, le→ltb, ltb, none, refl, set, some, subst, suc, sym, true, zero, ℕ, ◌&&◌, ◌*◌, ◌++◌,
  ◌+◌, ◌<◌, ◌==◌, ◌||◌, ◌∙◌, ◌∷◌, ◌≡◌, ◌≤◌,
}
use file_transfer_cmd.Master.{
  RateCollector, RateInfo, RateQueueElem, Report, collect_rate, extend_queue, fill_at, fill_row,
  hang_up, leaves, new_collector, new_row, publish, publishes, put_report, rate_of, row_list,
  run_collector,
}
use file_transfer_cmd.Prelude.Words.{sub32}
use mathlib.Core.Option.{some-injective}

-- Every report has a number up to 5.
abbrev pub AllShort : {D : Type 0} → List (Report D) → Type 0
AllShort [] = Unit {0}
AllShort (rate_of idx info ∷ es) = (info.seq_num ≤ 5) × AllShort es
AllShort (leaves ∷ es) = AllShort es
AllShort (publishes ∷ es) = AllShort es

-- No client has finished.
record IsWaiting {D : Type 0} (n : ℕ) (c : RateCollector D) : Type 0 where
  clients : c.client_num ≡ n
  none_over : c.finished_count ≡ 0
  goes_on : c.finished ≡ false

module _ {D : Type 0} (unset : D) (negative : D → Bool) (n : ℕ) (some_client : 0 < n) where
  extend_queue-IsWaiting :
      (fuel moment : ℕ) (c : RateCollector D)
      → IsWaiting n c
      → IsWaiting n (extend_queue unset fuel moment c)
  unfolding extend_queue
  extend_queue-IsWaiting zero moment c w = w
  extend_queue-IsWaiting (suc fuel) moment c w =
      elim (Bool-cases (length c.rate_queue == 0 || leb c.wait_seq_num moment)) [
        | inr stop ↦ rw stop w
        | inl go ↦ rw go (
            extend_queue-IsWaiting fuel moment
              (record c {
                rate_queue = c.rate_queue ++ new_row unset c.client_num c.wait_seq_num ∷ [];
                wait_seq_num = c.wait_seq_num + 1;
              })
              (record { clients = w.clients; none_over = w.none_over; goes_on = w.goes_on }))
      ]

  fill_at-IsWaiting :
      (idx k : ℕ) (info : RateInfo D) (c : RateCollector D) {c' : RateCollector D}
      → info.seq_num ≤ 5
      → IsWaiting n c
      → fill_at negative idx info (info.seq_num + idx * 100) k c ≡ some c'
      → IsWaiting n c'
  unfolding fill_at
  fill_at-IsWaiting idx k info c h w e =
      let early : ltb (idx * 100 + 5) (info.seq_num + idx * 100) ≡ false =
        le→ltb (idx * 100 + 5) (info.seq_num + idx * 100) (omega arith) in
      elim (Option-cases (get_elem? c.rate_queue k)) [
        | inl gone ↦
            let refused : fill_at negative idx info (info.seq_num + idx * 100) k c ≡ none =
              rw (gone, fill_at) refl in
            cc
        | inr (row, z) ↦
            let ends : Bool =
              ltb (idx * 100 + 5) (info.seq_num + idx * 100) && negative info.rate in
            let c₂ : RateCollector D = record c {
              rate_queue = set c.rate_queue k (fill_row negative idx info c.finished_arr row);
              finished_count = if ends then c.finished_count + 1 else c.finished_count;
              finished_arr = if ends then set c.finished_arr idx true else c.finished_arr;
            } in
            let filled : fill_at negative idx info (info.seq_num + idx * 100) k c ≡ some c₂ =
              rw (z, fill_at) refl in
            subst (IsWaiting n) (some-injective _ _ (sym filled ∙ e)) (record {
              clients = w.clients;
              none_over = rw early w.none_over;
              goes_on = w.goes_on;
            })
      ]

  put_report-IsWaiting :
      (idx : ℕ) (info : RateInfo D) (c : RateCollector D) (q : List (RateQueueElem D))
      {c' : RateCollector D}
      → info.seq_num ≤ 5
      → IsWaiting n c
      → put_report negative idx info (info.seq_num + idx * 100) c q ≡ some c'
      → IsWaiting n c'
  unfolding put_report
  put_report-IsWaiting idx info c [] h w e = cc
  put_report-IsWaiting idx info c (first ∷ rows) h w e =
      fill_at-IsWaiting idx (sub32 (info.seq_num + idx * 100) first.seq_num) info c h w e

  publish-IsWaiting :
      (c : RateCollector D) (q : List (RateQueueElem D))
      → c.rate_queue ≡ q
      → IsWaiting n c
      → IsWaiting n (publish c).0
  unfolding publish
  publish-IsWaiting c [] e w = rw (e, publish) w
  publish-IsWaiting c (row ∷ rows) e w =
      rw (e, publish)
        (elim (Bool-cases (c.finished || row.ready)) [
          | inl go ↦
              rw go (record { clients = w.clients; none_over = w.none_over; goes_on = w.goes_on })
          | inr stay ↦ rw stay w
        ])

  hang_up-IsWaiting : (c : RateCollector D) → IsWaiting n c → IsWaiting n (hang_up c)
  unfolding hang_up
  hang_up-IsWaiting c w =
      let some_left : (c.finished_count == c.client_num) ≡ false =
        ground (arith, w.none_over, w.clients) in
      simp some_left w

  run_collector-report :
      (idx : ℕ) (info : RateInfo D) (es : List (Report D)) (c c₁ : RateCollector D)
      (log : List (RateQueueElem D))
      → collect_rate unset negative idx info c ≡ some c₁
      → run_collector unset negative (rate_of idx info ∷ es) c log
        ≡ run_collector unset negative es c₁ log
  unfolding run_collector
  run_collector-report idx info es c c₁ log z = rw (z, run_collector) refl

  run_collector-IsWaiting :
      (es : List (Report D)) (c : RateCollector D) (log : List (RateQueueElem D))
      {c' : RateCollector D} {log' : List (RateQueueElem D)}
      → AllShort es
      → IsWaiting n c
      → run_collector unset negative es c log ≡ some (c', log')
      → IsWaiting n c'
  unfolding run_collector collect_rate
  run_collector-IsWaiting [] c log a w e =
      subst (IsWaiting n) (ap (λ k. k.0) (some-injective _ _ e)) w
  run_collector-IsWaiting (rate_of idx info ∷ es) c log (h, a) w e =
      elim (Option-cases (collect_rate unset negative idx info c)) [
        | inl gone ↦
            let refused : run_collector unset negative (rate_of idx info ∷ es) c log ≡ none =
              rw (gone, run_collector) refl in
            cc
        | inr (c₁, z) ↦
            run_collector-IsWaiting es c₁ log a
              (put_report-IsWaiting idx info
                (extend_queue unset (info.seq_num + idx * 100 + 2) (info.seq_num + idx * 100) c) _ h
                (extend_queue-IsWaiting (info.seq_num + idx * 100 + 2) (info.seq_num + idx * 100) c
                  w)
                z)
              (sym (run_collector-report idx info es c c₁ log z) ∙ e)
      ]
  run_collector-IsWaiting (leaves ∷ es) c log a w e =
      run_collector-IsWaiting es (hang_up c) log a (hang_up-IsWaiting c w) e
  run_collector-IsWaiting (publishes ∷ es) c log a w e =
      run_collector-IsWaiting es (publish c).0 (log ++ row_list (publish c).1) a
        (publish-IsWaiting c c.rate_queue refl w) e

-- In a transfer of at least one client, if every report has a number up to 5, then no client counts as
-- finished, also when all have told their end and have hung up: the collector is not finished.
pub short_transfer_waits :
    {D : Type 0} (unset : D) (negative : D → Bool) (n : ℕ) (es : List (Report D))
    {c : RateCollector D} {log : List (RateQueueElem D)}
    → 0 < n
    → AllShort es
    → run_collector unset negative es (new_collector n) [] ≡ some (c, log)
    → (c.finished ≡ false) × (c.finished_count ≡ 0)
unfolding new_collector
short_transfer_waits unset negative n es some_client a e =
    let w =
      run_collector-IsWaiting unset negative n some_client es (new_collector n) [] a
        (record { clients = refl; none_over = refl; goes_on = refl }) e in
    (w.goes_on, w.none_over)
