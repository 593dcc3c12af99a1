-- ===== src/Master/Tests.antt =====
-- A run of the collector, and the theorem on it. The rates are numbers, and 0 is a negative rate.
use file_transfer_cmd.Prelude.{List, [], arith, false, length, some, ℕ, ◌==◌, ◌∷◌, ◌≡◌}
use file_transfer_cmd.Master.{
  RateCollector, RateInfo, RateQueueElem, Report, all_ready, collect_rate, extend_queue, fill_at,
  fill_row, hang_up, leaves, new_collector, new_row, publish, publishes, put_report, rate_of,
  run_collector,
}
use file_transfer_cmd.Master.Order.{Timely, published_in_order}
use file_transfer_cmd.Master.Rows.{IsOrdered, Rows}

abbrev rate : ℕ → ℕ → RateInfo ℕ
rate seq r = record { seq_num = seq; rate = r }

-- One client reports twice; the row in front is published.
abbrev steps : List (Report ℕ)
steps =
    publishes ∷ rate_of 0 (rate 0 5) ∷ publishes ∷ rate_of 0 (rate 1 7) ∷ leaves ∷ publishes ∷ []

steps-Timely : Timely 0 (λ r. r == 0) 1 0 steps (new_collector 1)
unfolding new_collector collect_rate put_report fill_at fill_row extend_queue new_row all_ready
    publish hang_up
steps-Timely = (omega arith, omega arith, (omega arith, omega arith, tt))

published_in_order_example :
    (c : RateCollector ℕ) × (log : List (RateQueueElem ℕ)) × (run_collector 0
        (λ r. r == 0)
        steps
        (new_collector 1)
        []
      ≡ some (c, log))
    × IsOrdered 1 (length log) c
    × Rows 1 0 log
published_in_order_example = published_in_order 0 (λ r. r == 0) 1 steps steps-Timely

abbrev one_row : RateCollector ℕ
one_row = record {
  rate_queue = record { rates = rate 0 0 ∷ []; ready = false; seq_num = 4 } ∷ [];
  client_num = 1;
  wait_seq_num = 5;
  finished_count = 0;
  finished_arr = false ∷ [];
  finished = false;
}
