-- ===== src/Policy.antt =====
-- src/fs.c: which replicas are disabled after an operation, and which error it returns.
pub mod Laws
use chironfs.Base.{
  ℕ, zero, suc, ℤ, pos, is_nonzero, Bool, true, false, not, ◌&&◌, ◌==◌, String, Option, List, [],
  ◌∷◌, if◌then◌else◌,
}
use chironfs.Model.{Replica, Config, State}
use chironfs.Log.{log}

module _ {W : Type 0} where
  -- `disable_replica` and `enable_replica`: the new entry of the replica, and the log.
  unfoldable pub disable_replica : Replica → State W → Replica × State W
  disable_replica r s = (record r { disabled = true }, log "disabling replica" r.path (pos 0) s)

  unfoldable pub enable_replica : Replica → State W → Replica × State W
  enable_replica r s = (record r { disabled = false }, log "enabling replica" r.path (pos 0) s)

  -- The loop of `disable_faulty_replicas` over the replicas and their entries of `err_list`: what it
  -- leaves of the replicas, and the state with what `_log` wrote.
  unfoldable pub disable_loop : String → List Replica → List ℤ → State W → List Replica × State W
  unfolding disable_replica
  disable_loop operation [] errs s = ([], s)
  disable_loop operation (r ∷ rs) [] s = (r ∷ rs, s)
  disable_loop operation (r ∷ rs) (e ∷ errs) s =
      let (r', s') =
        if not r.disabled && is_nonzero e
        then disable_replica r (log operation r.path e s)
        else (r, s) in
      let (rs', s'') = disable_loop operation rs errs s' in (r' ∷ rs', s'')

  -- `disable_faulty_replicas`
  unfoldable pub disable_faulty_replicas : String → ℕ → ℕ → List ℤ → State W → State W
  disable_faulty_replicas operation succ_cnt fail_cnt err_list s =
      let (rs, s') = disable_loop operation s.config.replicas err_list s in
      if not (fail_cnt == 0) && not (succ_cnt == 0)
      then record s' { config = record (s'.config) { replicas = rs } }
      else s

-- `get_first_error`: the first error of a replica that is not disabled, 0 if there is none.
unfoldable pub get_first_error : List Replica → List ℤ → ℤ
get_first_error [] errs = pos 0
get_first_error (r ∷ rs) [] = pos 0
get_first_error (r ∷ rs) (e ∷ errs) =
    let rest = get_first_error rs errs in if not r.disabled && is_nonzero e then e else rest
