-- ===== src/Priv.antt =====
-- src/fs.c: `drop_priv` and `reacquire_priv`. The caller's user and group come from FUSE.
pub mod Laws
use chironfs.Base.{ℕ, ℤ, pos, negsuc, is_minus_one, Bool, if◌then◌else◌}
use chironfs.Model.{Config, Cred, Call, seteuid, setegid, Reply, Kernel, State, call}

module _ {W : Type 0} (sys : Kernel W) where
  -- setegid(gid): a call that does not return -1 has changed the effective group.
  unfoldable pub set_egid : ℕ → State W → ℤ × State W
  set_egid gid s =
      let (r, s') = call sys (setegid gid) s in
      if is_minus_one r.ret
      then (negsuc 0, s')
      else (r.ret, record s' { cred = record { uid = s.cred.uid; gid = gid } })

  -- seteuid(uid), likewise.
  unfoldable pub set_euid : ℕ → State W → ℤ × State W
  set_euid uid s =
      let (r, s') = call sys (seteuid uid) s in
      if is_minus_one r.ret
      then (negsuc 0, s')
      else (r.ret, record s' { cred = record { uid = uid; gid = s.cred.gid } })

  -- `context` is the user and group of `fuse_get_context`.
  unfoldable pub drop_priv : Cred → State W → ℤ × State W
  unfolding set_egid set_euid
  drop_priv context s =
      let (g, s1) = set_egid context.gid s in
      let (u, s2) = set_euid context.uid s1 in
      if is_minus_one g
      then (negsuc 0, s1)
      else if is_minus_one u
      then (negsuc 0, s2)
      else (pos 0, s2)

  unfoldable pub reacquire_priv : State W → ℤ × State W
  unfolding set_egid set_euid
  reacquire_priv s =
      let (u, s1) = set_euid s.config.uid s in
      let (g, s2) = set_egid s.config.gid s1 in
      if is_minus_one u
      then (negsuc 0, s1)
      else if is_minus_one g
      then (negsuc 0, s2)
      else (pos 0, s2)
