-- ===== src/Window/Tests.antt =====
-- The window at concrete samples.
use capstone_monitor.Prelude.{ℕ, ◌≡◌, refl, List, [], ◌∷◌, arith, replicate, ◌++◌}
use capstone_monitor.Window.{sw_init, sw_push, sw_run, sw_mean, exact_sum}
use capstone_monitor.Window.Contents.{contents, run_holds_last_ten}
use capstone_monitor.Window.Whole.{whole, whole-IntegersAreExact}
use capstone_monitor.Window.Exact.{mean_of_last_ten}
use capstone_monitor.Window.Drift.{no_drift_after_hundred}

abbrev twelve : List ℕ
twelve = 1 ∷ 2 ∷ 3 ∷ 4 ∷ 5 ∷ 6 ∷ 7 ∷ 8 ∷ 9 ∷ 10 ∷ 11 ∷ 12 ∷ []

abbrev sevens : List ℕ
sevens = replicate 99 7

run_holds_last_ten_example :
    (contents (sw_run whole (sw_init whole) twelve) ≡ 3 ∷ 4 ∷ 5 ∷ 6 ∷ 7 ∷ 8 ∷ 9 ∷ 10 ∷ 11 ∷ 12 ∷ [])
    × ((sw_run whole (sw_init whole) twelve).count ≡ 10)
run_holds_last_ten_example = run_holds_last_ten whole twelve

mean_of_last_ten_example : sw_mean whole (sw_run whole (sw_init whole) twelve) ≡ 7
mean_of_last_ten_example =
    mean_of_last_ten whole (whole-IntegersAreExact 1000) 20 (omega arith) twelve (omega arith)

no_drift_after_hundred_example :
    (sw_run whole (sw_init whole) (sevens ++ 8 ∷ [])).run_sum
    ≡ exact_sum whole
        (sw_run whole (sw_init whole) (sevens ++ 8 ∷ [])).buffer
        (sw_run whole (sw_init whole) (sevens ++ 8 ∷ [])).count
no_drift_after_hundred_example = no_drift_after_hundred whole sevens 8 refl

mean_of_none : sw_mean whole (sw_init whole) ≡ 0
unfolding sw_mean sw_init
mean_of_none = refl

recomputed_sum : (sw_run whole (sw_init whole) (sevens ++ 8 ∷ [])).run_sum ≡ 71
unfolding sw_run sw_init sw_push exact_sum
recomputed_sum = refl
