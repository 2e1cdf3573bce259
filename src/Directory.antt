-- ===== src/Directory.antt =====
-- src/fs.c: chiron_readdir. `filler` is the callback of FUSE that takes a name.
pub mod Proofs
use chironfs.Base.{
  ℕ, zero, suc, ℤ, pos, neg, is_nonzero, Bool, Option, none, some, ◌>>=◌, if◌then◌else◌, get_elem?,
}
use chironfs.Model.{
  Bytes, Replica, Cred, calloc, opendir, seekdir, readdir, closedir, filler, Kernel, State, call,
}
use chironfs.Priv.{drop_priv, reacquire_priv}
use chironfs.Mirror.{enomem, xlate, finish}
use chironfs.Scan.{Attempt, passed, missed, served, Scanned, scan_all}
use chironfs.FileIo.{served_cnt}

module _ {W : Type 0} (sys : Kernel W) where
  -- while ((de = readdir(dp)) != NULL) if (filler(…)) break, for at most `n` names; none where they do
  -- not suffice.
  unfoldable pub fill : ℕ → ℤ → State W → Option (State W)
  fill zero dp s = none
  fill (suc n) dp s =
      let (de, s1) = call sys (readdir dp) s in
      let (full, s2) = call sys (filler de.stored) s1 in
      let rest = fill n dp s2 in
      if is_nonzero de.ret then (if is_nonzero full.ret then some s2 else rest) else some s1

  -- opendir, and what follows it; `free` is left out.
  unfoldable pub list_entries : ℕ → ℤ → Bytes → State W → Option (Attempt × State W)
  list_entries n offset fname s =
      let (dp, s1) = call sys (opendir fname) s in
      let s2 = (call sys (seekdir dp.ret offset) s1).1 in
      let listed = fill n dp.ret s2 >>= λ s3. some (served dp, (call sys (closedir dp.ret) s3).1) in
      if is_nonzero dp.ret then listed else some (missed (neg dp.errno), s1)

  -- One try; none where `replica` is outside the array.
  unfoldable pub readdir_attempt : ℕ → Bytes → ℤ → ℕ → State W → Option (Attempt × State W)
  readdir_attempt n path offset replica s = do
    r ← get_elem? s.config.replicas replica
    let (fname, s') = xlate sys path r.path s
    if r.disabled
        then some (passed, s)
        else elim fname [ none ↦ some (passed, s') | some f ↦ list_entries n offset f s' ]

  unfoldable pub readdir_body : ℕ → Bytes → ℤ → State W → Option (ℤ × State W)
  readdir_body n path offset s = do
    (got, s') ← scan_all (readdir_attempt n path offset) s
    some (finish sys "readdir" (pos 0) (served_cnt got.reply) got.fail_cnt got.err_list s')

  -- chiron_readdir, with at most `n` names from a directory stream.
  unfoldable pub chiron_readdir : ℕ → Cred → Bytes → ℤ → State W → Option (ℤ × State W)
  chiron_readdir n context path offset s =
      let s1 = (drop_priv sys context s).1 in
      let (p, s2) = call sys (calloc s1.config.max_replica 4) s1 in
      if is_nonzero p.ret
      then readdir_body n path offset s2
      else some (enomem, (reacquire_priv sys s2).1)
