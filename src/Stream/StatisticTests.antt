-- ===== src/Stream/StatisticTests.antt =====
-- A short transfer as the statistics thread reports it, and as the master takes it.
use file_transfer_cmd.Prelude.{Bool, List, [], false, refl, true, ℕ, ◌∷◌, ◌≡◌}
use file_transfer_cmd.Stream.Statistic.{
  IsReported, Look, Made, ended, last_report, passed, report, statistic, statistic-IsReported,
  watch,
}

abbrev look : ℕ → Bool → Bool → Look
look bytes due reaches = record {
  at_test = bytes;
  due = due;
  at_rate = bytes;
  at_mark = bytes;
  sends = passed reaches;
}

abbrev looks : List Look
looks = look 0 true true ∷ look 30 false true ∷ look 60 true false ∷ look 100 true true ∷ []

abbrev made : ℕ → ℕ → Bool → Made ℕ
made seq rate reaches = record { info = record { seq_num = seq; rate = rate }; reaches = reaches }

-- A megabit for each byte, and 0 for the mark of the end; the third report is lost.
statistic-run :
    statistic (λ b. b) 0 100 (passed true) (passed true) looks 1
    ≡ ended (made 0 1 true ∷ made 1 0 true ∷ made 2 60 false ∷ made 3 0 true ∷ [])
unfolding statistic watch last_report report
statistic-run = refl

statistic-IsReported_example :
    IsReported 0 (passed true) (statistic (λ b. b) 0 100 (passed true) (passed true) looks 1)
statistic-IsReported_example =
    statistic-IsReported (λ b. b) 0 1 100 (passed true) (passed true) looks
