-- ===== src/Master/TestCase.antt =====
-- The collector of test-case.cpp, a variant of the master's: a moment is counted from the start of
-- each client, every client has to report before a row is complete, and any negative rate after the
-- first report is a client's last. `start` is ceil(delay / COLLECT_INTERVAL), which is given.
pub mod Complete
use file_transfer_cmd.Prelude.{
  Bool, List, Option, [], false, get_elem?, get_or, if◌then◌else◌, ltb, none, set, some, true, ℕ,
  ◌&&◌, ◌+◌, ◌==◌, ◌∷◌,
}
use file_transfer_cmd.Master.{RateCollector, RateInfo, RateQueueElem, extend_queue}
use file_transfer_cmd.Prelude.Words.{sub32}
use file_transfer_cmd.Stream.Send.{start}

-- The loop over the clients: only those that have finished are passed over.
unfoldable pub every_ready : {D : Type 0} → (D → Bool) → ℕ → List Bool → List (RateInfo D) → Bool
every_ready negative i ended [] = true
every_ready negative i ended (r ∷ rs) =
    let others = every_ready negative (i + 1) ended rs in
    if get_or ended i false
    then others
    else if r.seq_num == 0 && negative r.rate
    then false
    else others

unfoldable pub fill_test_row :
    {D : Type 0} → (D → Bool) → ℕ → RateInfo D → List Bool → RateQueueElem D → RateQueueElem D
fill_test_row negative idx info ended e =
    let rates = set e.rates idx info in
    record e { rates = rates; ready = if every_ready negative 0 ended rates then true else e.ready }

unfoldable pub fill_test_at :
    {D : Type 0} → (D → Bool) → ℕ → RateInfo D → ℕ → RateCollector D → Option (RateCollector D)
fill_test_at negative idx info k c = elim (get_elem? c.rate_queue k) [
  | none ↦ none
  | some row ↦
      let ends = ltb 0 info.seq_num && negative info.rate in
      some (record c {
        rate_queue = set c.rate_queue k (fill_test_row negative idx info c.finished_arr row);
        finished_count = if ends then c.finished_count + 1 else c.finished_count;
        finished_arr = if ends then set c.finished_arr idx true else c.finished_arr;
      })
]

unfoldable pub put_test_report :
    {D : Type 0}
    → (D → Bool)
    → ℕ
    → RateInfo D
    → ℕ
    → RateCollector D
    → List (RateQueueElem D)
    → Option (RateCollector D)
put_test_report negative idx info moment c [] = none
put_test_report negative idx info moment c (first ∷ rows) =
    fill_test_at negative idx info (sub32 moment first.seq_num) c

-- One report of client `idx`.
unfoldable pub collect_test_rate :
    {D : Type 0} → D → (D → Bool) → ℕ → ℕ → RateInfo D → RateCollector D → Option (RateCollector D)
collect_test_rate unset negative start idx info c =
    let moment = info.seq_num + start in
    let c₁ = extend_queue unset (moment + 2) moment c in
    put_test_report negative idx info moment c₁ c₁.rate_queue
