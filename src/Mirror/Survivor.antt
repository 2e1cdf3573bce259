-- ===== src/Mirror/Survivor.antt =====
-- Whether some replica is still enabled after an operation.
use chironfs.Base.{◌<◌, Bool, true, false, not, ◌||◌, List, [], ◌∷◌, ◌≡◌, arith}
use chironfs.Model.{Replica}
use chironfs.Policy.Laws.{marked}
use chironfs.Mirror.{Visit, skipped, failed, succeeded, err_list, succ_cnt}
use chironfs.Mirror.Laws.{Agrees}

-- Some replica is not disabled.
abbrev pub any_enabled : List Replica → Bool
any_enabled [] = false
any_enabled (r ∷ rs) = not r.disabled || any_enabled rs

-- If some visit succeeded, its replica is enabled after the failed ones have been disabled.
pub any_enabled-marked :
    (rs : List Replica) (vs : List Visit)
    → Agrees rs vs
    → 0 < succ_cnt vs
    → any_enabled (marked rs (err_list vs)) ≡ true
unfolding succ_cnt err_list
any_enabled-marked [] [] a h = absurd (omega arith)
any_enabled-marked [] (v ∷ vs) a h = absurd a
any_enabled-marked (r ∷ rs) [] a h = absurd a
any_enabled-marked (r ∷ rs) (skipped ∷ vs) a h = ground (arith, any_enabled-marked rs vs a.1 h)
any_enabled-marked (r ∷ rs) (failed e ∷ vs) a h = ground (arith, any_enabled-marked rs vs a.1 h)
any_enabled-marked (r ∷ rs) (succeeded ∷ vs) a h = ground arith
