-- ===== src/Master.antt =====
-- The master's RateCollector (master.cpp): the clients report their rates, a row of the queue stands
-- for one moment, and complete rows are published in order. The mutex makes each report and each
-- publication a step. An access out of range is `none`.
pub mod Rows
pub mod Order
pub mod Factor
pub mod Config
pub mod TestCase
pub mod Short
mod Tests
mod FactorTests
use file_transfer_cmd.Prelude.{
  Bool, List, Option, [], false, get_elem?, get_or, if◌then◌else◌, leb, length, ltb, none,
  replicate, set, some, suc, true, zero, ℕ, ◌&&◌, ◌*◌, ◌++◌, ◌+◌, ◌==◌, ◌||◌, ◌∷◌,
}
use file_transfer_cmd.Prelude.Words.{sub32}

pub record RateInfo (D : Type 0) : Type 0 where
  pub seq_num : ℕ
  pub rate : D

pub record RateQueueElem (D : Type 0) : Type 0 where
  pub rates : List (RateInfo D)
  pub ready : Bool
  pub seq_num : ℕ

pub record RateCollector (D : Type 0) : Type 0 where
  pub rate_queue : List (RateQueueElem D)
  pub client_num : ℕ
  pub wait_seq_num : ℕ
  pub finished_count : ℕ
  pub finished_arr : List Bool
  pub finished : Bool

-- The collector of a new transfer (consume).
unfoldable pub new_collector : {D : Type 0} → ℕ → RateCollector D
new_collector client_num = record {
  rate_queue = [];
  client_num = client_num;
  wait_seq_num = 0;
  finished_count = 0;
  finished_arr = replicate client_num false;
  finished = false;
}

-- A row in which no client has reported; `unset` is -2.0.
unfoldable pub new_row : {D : Type 0} → D → ℕ → ℕ → RateQueueElem D
new_row unset client_num seq = record {
  rates = replicate client_num (record { seq_num = 0; rate = unset });
  ready = false;
  seq_num = seq;
}

-- The loop that appends rows up to the reported moment, on fuel.
unfoldable pub extend_queue : {D : Type 0} → D → ℕ → ℕ → RateCollector D → RateCollector D
extend_queue unset zero moment c = c
extend_queue unset (suc fuel) moment c =
    let more = extend_queue unset fuel moment (record c {
      rate_queue = c.rate_queue ++ new_row unset c.client_num c.wait_seq_num ∷ [];
      wait_seq_num = c.wait_seq_num + 1;
    }) in
    if length c.rate_queue == 0 || leb c.wait_seq_num moment then more else c

-- The loop over the clients: those that have not started yet end it, those that have finished and
-- the reporting one are passed over.
pub all_ready : {D : Type 0} → (D → Bool) → ℕ → ℕ → ℕ → List Bool → List (RateInfo D) → Bool
all_ready negative seq idx i ended [] = true
all_ready negative seq idx i ended (r ∷ rs) =
    let others = all_ready negative seq idx (i + 1) ended rs in
    if i == idx
    then others
    else if ltb seq (i * 100)
    then true
    else if get_or ended i false
    then others
    else if r.seq_num == 0 && negative r.rate
    then false
    else others

-- The row with one more report; a row has a place for every client.
pub fill_row :
    {D : Type 0} → (D → Bool) → ℕ → RateInfo D → List Bool → RateQueueElem D → RateQueueElem D
fill_row negative idx info ended e =
    let rates = set e.rates idx info in
    record e {
      rates = rates;
      ready = if all_ready negative e.seq_num idx 0 ended rates then true else e.ready;
    }

-- The report goes to row `k`; a negative rate some moments after the start is a client's last.
pub fill_at :
    {D : Type 0} → (D → Bool) → ℕ → RateInfo D → ℕ → ℕ → RateCollector D → Option (RateCollector D)
fill_at negative idx info moment k c = elim (get_elem? c.rate_queue k) [
  | none ↦ none
  | some row ↦
      let ends = ltb (idx * 100 + 5) moment && negative info.rate in
      some (record c {
        rate_queue = set c.rate_queue k (fill_row negative idx info c.finished_arr row);
        finished_count = if ends then c.finished_count + 1 else c.finished_count;
        finished_arr = if ends then set c.finished_arr idx true else c.finished_arr;
      })
]

-- The row of a moment is counted from the front of the queue.
pub put_report :
    {D : Type 0}
    → (D → Bool)
    → ℕ
    → RateInfo D
    → ℕ
    → RateCollector D
    → List (RateQueueElem D)
    → Option (RateCollector D)
put_report negative idx info moment c [] = none
put_report negative idx info moment c (first ∷ rows) =
    fill_at negative idx info moment (sub32 moment first.seq_num) c

-- One report of client `idx` (the body of collect_rate_info).
pub collect_rate :
    {D : Type 0} → D → (D → Bool) → ℕ → RateInfo D → RateCollector D → Option (RateCollector D)
collect_rate unset negative idx info c =
    let moment = info.seq_num + idx * 100 in
    let c₁ = extend_queue unset (moment + 2) moment c in
    put_report negative idx info moment c₁ c₁.rate_queue

-- The end of a client's connection.
pub hang_up : {D : Type 0} → RateCollector D → RateCollector D
hang_up c = if c.finished_count == c.client_num then record c { finished = true } else c

-- One round of check_and_send_thread: it waits, or takes the front row.
pub publish : {D : Type 0} → RateCollector D → RateCollector D × Option (RateQueueElem D)
publish c = elim c.rate_queue [
  | [] ↦ (c, none)
  | row ∷ rows ↦
      if c.finished || row.ready then (record c { rate_queue = rows }, some row) else (c, none)
]

pub data Report (D : Type 0) : Type 0 where
  rate_of : ℕ → RateInfo D → Report D
  leaves publishes : Report D

abbrev pub row_list : {A : Type 0} → Option A → List A
row_list none = []
row_list (some a) = a ∷ []

-- The collector after some steps, and the rows published.
pub run_collector :
    {D : Type 0}
    → D
    → (D → Bool)
    → List (Report D)
    → RateCollector D
    → List (RateQueueElem D)
    → Option (RateCollector D × List (RateQueueElem D))
run_collector unset negative [] c log = some (c, log)
run_collector unset negative (rate_of idx info ∷ es) c log =
    elim (collect_rate unset negative idx info c) [
      | none ↦ none
      | some c' ↦ run_collector unset negative es c' log
    ]
run_collector unset negative (leaves ∷ es) c log = run_collector unset negative es (hang_up c) log
run_collector unset negative (publishes ∷ es) c log =
    let (c', row) = publish c in run_collector unset negative es c' (log ++ row_list row)
