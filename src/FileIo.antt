-- ===== src/FileIo.antt =====
-- src/fs.c: chiron_read and chiron_write.
pub mod Largest
pub mod Writing
pub mod Reading
pub mod Survivor
pub mod Keeping
pub mod Served
use chironfs.Base.{
  ℕ, zero, suc, ◌+◌, ◌%◌, ◌^◌, ℤ, pos, neg, is_negative, is_nonzero, ◌||◌, ◌==◌, String, Option,
  none, some, List, [], ◌∷◌, ◌>>=◌, if◌then◌else◌, get_elem?, set, max_ℤ,
}
use chironfs.Model.{Bytes, Replica, Cred, calloc, pread, pwrite, Reply, Kernel, State, call}
use chironfs.Priv.{drop_priv, reacquire_priv}
use chironfs.Mirror.{
  Visit, skipped, failed, succeeded, err_list, succ_cnt, fail_cnt, enomem, einval, finish,
}
use chironfs.Scan.{Attempt, passed, missed, served, Scanned, scan_all}

-- What chiron_read gives FUSE: its result, and what it stored in `buf`.
pub record ReadReply : Type 0 where
  pub ret : ℤ
  pub buf : Bytes

-- totrd++ and totwr++, in an unsigned long long.
abbrev pub count_up : ℕ → ℕ
count_up n = (n + 1) % 2 ^ 64

-- The value that a handler returns where a replica has served the request.
abbrev pub served_ret : Option Reply → ℤ
served_ret none = pos 0
served_ret (some r) = r.ret

abbrev pub served_bytes : Option Reply → Bytes
served_bytes none = []
served_bytes (some r) = r.stored

abbrev pub served_cnt : Option Reply → ℕ
served_cnt none = 0
served_cnt (some r) = 1

module _ {W : Type 0} (sys : Kernel W) where
  abbrev put_replica : ℕ → Replica → State W → State W
  put_replica i r s = record s {
    config = record (s.config) { replicas = set s.config.replicas i r };
  }

  -- One try of chiron_read; none where `replica` is outside an array.
  unfoldable pub read_attempt : List ℤ → ℕ → ℤ → ℕ → State W → Option (Attempt × State W)
  read_attempt fds size offset replica s = do
    fd ← get_elem? fds replica
    r ← get_elem? s.config.replicas replica
    let (res, s') = call sys (pread fd size offset) s
    if is_negative fd || r.disabled
        then some (passed, s)
        else if is_negative res.ret
        then some (missed (neg res.errno), s')
        else some (served res, put_replica replica (record r { totrd = count_up r.totrd }) s')

  unfoldable pub read_body : List ℤ → ℕ → ℤ → State W → Option (ReadReply × State W)
  read_body fds size offset s = do
    (got, s') ← scan_all (read_attempt fds size offset) s
    let out =
        finish sys "read" (served_ret got.reply) (served_cnt got.reply) got.fail_cnt got.err_list s'
    some (record { ret = out.0; buf = served_bytes got.reply }, out.1)

  abbrev failed_read : ℤ → ReadReply
  failed_read e = record { ret = e; buf = [] }

  -- chiron_read: none for a fault, as where `fi->fh` is outside the table.
  unfoldable pub chiron_read : Cred → ℕ → ℤ → ℕ → State W → Option (ReadReply × State W)
  chiron_read context size offset fh s =
      let s1 = (drop_priv sys context s).1 in
      let (p, s2) = call sys (calloc s1.config.max_replica 4) s1 in
      elim (get_elem? s1.config.tab_fd fh) [
        | none ↦ none
        | some none ↦ some (failed_read einval, (reacquire_priv sys s1).1)
        | some (some fds) ↦
            if is_nonzero p.ret
            then read_body fds size offset s2
            else some (failed_read enomem, (reacquire_priv sys s2).1)
      ]

  -- One iteration of chiron_write: how it ends, what `w` is, and the replica with its counter.
  unfoldable pub write_visit : Bytes → ℤ → Replica → ℤ → State W → (Visit × ℤ × Replica) × State W
  write_visit buf offset r fd s =
      let (res, s') = call sys (pwrite fd buf offset) s in
      if r.disabled || is_negative fd
      then ((skipped, pos 0, r), s)
      else if is_negative res.ret
      then ((failed (neg res.errno), pos 0, r), s')
      else ((succeeded, res.ret, record r { totwr = count_up r.totwr }), s')

  -- The loop, from `w_max` on: the ends, the last `w_max`, and the replicas.
  unfoldable pub write_all :
      Bytes → ℤ → List Replica → List ℤ → ℤ → State W → (List Visit × ℤ × List Replica) × State W
  write_all buf offset [] fds w_max s = (([], w_max, []), s)
  write_all buf offset (r ∷ rs) [] w_max s = (([], w_max, r ∷ rs), s)
  write_all buf offset (r ∷ rs) (fd ∷ fds) w_max s =
      let (one, s1) = write_visit buf offset r fd s in
      let w : ℤ = elim one.0 [ succeeded ↦ max_ℤ one.1 w_max | _ ↦ w_max ] in
      let (rest, s2) = write_all buf offset rs fds w s1 in
      ((one.0 ∷ rest.0, rest.1, one.2 ∷ rest.2), s2)

  unfoldable pub write_body : Bytes → ℤ → List ℤ → State W → ℤ × State W
  write_body buf offset fds s =
      let (all, s') = write_all buf offset s.config.replicas fds (pos 0) s in
      let s'' : State W = record s' { config = record (s'.config) { replicas = all.2 } } in
      finish sys "write" all.1 (succ_cnt all.0) (fail_cnt all.0) (err_list all.0) s''

  unfoldable pub chiron_write : Cred → Bytes → ℤ → ℕ → State W → Option (ℤ × State W)
  chiron_write context buf offset fh s =
      let s1 = (drop_priv sys context s).1 in
      let (p, s2) = call sys (calloc s1.config.max_replica 4) s1 in
      elim (get_elem? s1.config.tab_fd fh) [
        | none ↦ none
        | some none ↦ some (einval, (reacquire_priv sys s1).1)
        | some (some fds) ↦
            if is_nonzero p.ret
            then some (write_body buf offset fds s2)
            else some (enomem, (reacquire_priv sys s2).1)
      ]
