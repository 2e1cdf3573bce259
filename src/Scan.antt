-- ===== src/Scan.antt =====
-- src/fs.c: the loop of the handlers that need one replica only. It asks `choose_replica` for one
-- replica after the other until one of them serves the request.
pub mod Total
pub mod Seen
pub mod Survivor
pub mod Finish
pub mod Reference
pub mod Result
pub mod Tried
use chironfs.Base.{ℕ, zero, suc, ◌+◌, ℤ, pos, Option, none, some, List, ◌>>=◌, set, replicate}
use chironfs.Model.{Reply, State}
use chironfs.Choose.{choose_replica}

-- How a try ends: passed over, with `err_list[replica] = e; fail_cnt++`, or with `succ_cnt++` and
-- `break`.
pub data Attempt : Type 0 where
  passed : Attempt
  missed : ℤ → Attempt
  served : Reply → Attempt

-- What the loop has left when it ends. `succ_cnt` is 1 if a replica served the request, else 0.
pub record Scanned : Type 0 where
  pub err_list : List ℤ
  pub fail_cnt : ℕ
  pub reply : Option Reply

module _ {W : Type 0} (attempt : ℕ → State W → Option (Attempt × State W)) where
  -- `n` tries, from `try` on; none for a fault.
  unfoldable pub scan : ℕ → ℕ → Scanned → State W → Option (Scanned × State W)
  scan zero try acc s = some (acc, s)
  scan (suc n) try acc s = do
    (replica, c) ← choose_replica try s.config
    (a, s') ← attempt replica (record s { config = c })
    elim a [
      | passed ↦ scan n (try + 1) acc s'
      | missed e ↦
          scan n (try + 1)
            (record acc { err_list = set acc.err_list replica e; fail_cnt = suc acc.fail_cnt }) s'
      | served r ↦ some (record acc { reply = some r }, s')
    ]

  -- for (i = 0; i < config.max_replica; i++), with `err_list` from calloc.
  unfoldable pub scan_all : State W → Option (Scanned × State W)
  scan_all s =
      scan s.config.max_replica 0
        (record { err_list = replicate s.config.max_replica (pos 0); fail_cnt = 0; reply = none }) s
