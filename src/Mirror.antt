-- ===== src/Mirror.antt =====
-- src/fs.c: what its handlers share. `xlate`, the loop over all replicas of the handlers that change
-- files, and the common end of all handlers. `free`, `dbg` and the timing macros have no effect here.
pub mod Laws
pub mod Outcome
pub mod Calls
pub mod Survivor
pub mod Keeping
use chironfs.Base.{
  ℕ, suc, ◌+◌, ℤ, pos, negsuc, neg, is_nonzero, is_negative, Bool, not, ◌==◌, String, Option, none,
  some, List, [], ◌∷◌, ◌++◌, if◌then◌else◌, length,
}
use chironfs.Model.{Bytes, Replica, Cred, Call, calloc, malloc, Reply, Kernel, State, call}
use chironfs.Priv.{drop_priv, reacquire_priv}
use chironfs.Policy.{disable_faulty_replicas, get_first_error}

-- How the iteration for one replica ends: passed over, with `err_list[i] = e; fail_cnt++`, or with
-- `succ_cnt++`.
pub data Visit : Type 0 where
  skipped : Visit
  failed : ℤ → Visit
  succeeded : Visit

-- `err_list` after the iterations; calloc has set it to zeros.
unfoldable pub err_list : List Visit → List ℤ
err_list [] = []
err_list (skipped ∷ vs) = pos 0 ∷ err_list vs
err_list (failed e ∷ vs) = e ∷ err_list vs
err_list (succeeded ∷ vs) = pos 0 ∷ err_list vs

unfoldable pub succ_cnt : List Visit → ℕ
succ_cnt [] = 0
succ_cnt (skipped ∷ vs) = succ_cnt vs
succ_cnt (failed e ∷ vs) = succ_cnt vs
succ_cnt (succeeded ∷ vs) = suc (succ_cnt vs)

unfoldable pub fail_cnt : List Visit → ℕ
fail_cnt [] = 0
fail_cnt (skipped ∷ vs) = fail_cnt vs
fail_cnt (failed e ∷ vs) = suc (fail_cnt vs)
fail_cnt (succeeded ∷ vs) = fail_cnt vs

-- -ENOMEM, -ENOSYS, -EINVAL and -EMFILE of Linux.
abbrev pub enomem : ℤ
enomem = negsuc 11

abbrev pub enosys : ℤ
enosys = negsuc 37

abbrev pub einval : ℤ
einval = negsuc 21

abbrev pub emfile : ℤ
emfile = negsuc 23

module _ {W : Type 0} where
  -- for (i = 0; i < config.max_replica; i++)
  unfoldable pub visit_all :
      (Replica → State W → Visit × State W) → List Replica → State W → List Visit × State W
  visit_all one [] s = ([], s)
  visit_all one (r ∷ rs) s =
      let (v, s') = one r s in let (vs, s'') = visit_all one rs s' in (v ∷ vs, s'')

module _ {W : Type 0} (sys : Kernel W) where
  -- `xlate`: none for NULL.
  unfoldable pub xlate : Bytes → Option Bytes → State W → Option Bytes × State W
  xlate fname none s = (none, s)
  xlate fname (some rpath) s =
      let (rname, s') = call sys (malloc (1 + length rpath + length fname)) s in
      if is_nonzero rname.ret then (some (rpath ++ fname), s') else (none, s')

  -- What a handler does with the file name of one replica: the test on the result of the call and
  -- the entry of `err_list` are the same in all of them.
  unfoldable pub try_call : (ℤ → Bool) → Call → State W → Visit × State W
  try_call is_failure c s =
      let (res, s') = call sys c s in
      if is_failure res.ret then (failed (neg res.errno), s') else (succeeded, s')

  -- One iteration of a handler with one path. `body` is what follows `xlate`.
  unfoldable pub visit :
      (Bytes → State W → Visit × State W) → Bytes → Replica → State W → Visit × State W
  visit body path r s =
      let (fname, s') = xlate path r.path s in
      if r.disabled then (skipped, s) else elim fname [ none ↦ (skipped, s') | some f ↦ body f s' ]

  -- The end of a handler: disable the replicas that failed, then return the first error if none
  -- succeeded, and `value` otherwise.
  unfoldable pub finish : String → ℤ → ℕ → ℕ → List ℤ → State W → ℤ × State W
  finish operation value succ_cnt fail_cnt err_list s =
      let s' = disable_faulty_replicas operation succ_cnt fail_cnt err_list s in
      let (_, s'') = reacquire_priv sys s' in
      if succ_cnt == 0 then (get_first_error s'.config.replicas err_list, s'') else (value, s'')

  -- The start of a handler: the result of `drop_priv` is dropped, and NULL from `calloc` ends the
  -- handler with -ENOMEM.
  unfoldable pub with_err_list : Cred → (State W → ℤ × State W) → State W → ℤ × State W
  with_err_list context body s =
      let (_, s1) = drop_priv sys context s in
      let (p, s2) = call sys (calloc s1.config.max_replica 4) s1 in
      let (_, s3) = reacquire_priv sys s2 in if is_nonzero p.ret then body s2 else (enomem, s3)

  -- The body of a handler that makes its change on every replica.
  unfoldable pub mirror_body :
      String → (Replica → State W → Visit × State W) → State W → ℤ × State W
  mirror_body operation one s =
      let (vs, s') = visit_all one s.config.replicas s in
      finish operation (pos 0) (succ_cnt vs) (fail_cnt vs) (err_list vs) s'

  unfoldable pub mirror :
      String → Cred → (Replica → State W → Visit × State W) → State W → ℤ × State W
  mirror operation context one = with_err_list context (mirror_body operation one)
