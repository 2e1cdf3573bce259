-- ===== src/Lookup.antt =====
-- src/fs.c: chiron_getattr, chiron_access and chiron_readlink.
pub mod Laws
pub mod Survivor
pub mod Served
pub mod Links
use chironfs.Base.{
  ℕ, ℤ, pos, neg, is_nonzero, is_minus_one, Bool, String, Option, none, some, List, [], ◌∷◌, ◌++◌,
  ◌>>=◌, if◌then◌else◌, get_elem?, ltb, length,
}
use chironfs.Model.{
  Bytes, Replica, Cred, Call, calloc, lstat, access, readlink, Reply, Kernel, State, call,
}
use chironfs.Priv.{drop_priv, reacquire_priv}
use chironfs.Mirror.{enomem, xlate, finish}
use chironfs.Scan.{Attempt, passed, missed, served, Scanned, scan_all}
use chironfs.FileIo.{ReadReply, served_cnt}

abbrev pub kept : (Reply → Bytes) → Option Reply → Bytes
kept keep none = []
kept keep (some r) = keep r

module _ {W : Type 0} (sys : Kernel W) where
  -- res = …, and what follows.
  unfoldable pub ask : (ℤ → Bool) → Call → State W → Attempt × State W
  ask is_failure c s =
      let (res, s') = call sys c s in
      if is_failure res.ret then (missed (neg res.errno), s') else (served res, s')

  -- One try; none where `replica` is outside the array.
  unfoldable pub lookup_attempt :
      (ℤ → Bool) → (Bytes → Call) → Bytes → ℕ → State W → Option (Attempt × State W)
  lookup_attempt is_failure c path replica s = do
    r ← get_elem? s.config.replicas replica
    let (fname, s') = xlate sys path r.path s
    if r.disabled
        then some (passed, s)
        else elim fname [ none ↦ some (passed, s') | some f ↦ some (ask is_failure (c f) s') ]

  -- A handler from its loop on. It returns 0 where a replica has served the request.
  unfoldable pub lookup_body :
      String
      → (ℤ → Bool)
      → (Bytes → Call)
      → (Reply → Bytes)
      → Bytes
      → State W
      → Option (ReadReply × State W)
  lookup_body operation is_failure c keep path s = do
    (got, s') ← scan_all (lookup_attempt is_failure c path) s
    let out = finish sys operation (pos 0) (served_cnt got.reply) got.fail_cnt got.err_list s'
    some (record { ret = out.0; buf = kept keep got.reply }, out.1)

  unfoldable pub lookup :
      String
      → (ℤ → Bool)
      → (Bytes → Call)
      → (Reply → Bytes)
      → Cred
      → Bytes
      → State W
      → Option (ReadReply × State W)
  lookup operation is_failure c keep context path s =
      let s1 = (drop_priv sys context s).1 in
      let (p, s2) = call sys (calloc s1.config.max_replica 4) s1 in
      if is_nonzero p.ret
      then lookup_body operation is_failure c keep path s2
      else some (record { ret = enomem; buf = [] }, (reacquire_priv sys s2).1)

  -- `buf` is what lstat stored in `stbuf`.
  unfoldable pub chiron_getattr : Cred → Bytes → State W → Option (ReadReply × State W)
  chiron_getattr context path = lookup "getattr" is_nonzero lstat (λ r. r.stored) context path

  unfoldable pub chiron_access : Cred → Bytes → ℕ → State W → Option (ReadReply × State W)
  chiron_access context path mask =
      lookup "access" is_nonzero (λ f. access f mask) (λ r. []) context path

  -- buf[res] = 0 ends the bytes that readlink stored. It is a fault, none, where they fill all of `buf`.
  unfoldable pub chiron_readlink : Cred → Bytes → ℕ → State W → Option (ReadReply × State W)
  chiron_readlink context path size s = do
    (out, s') ←
        lookup "readlink" is_minus_one (λ f. readlink f size) (λ r. r.stored ++ 0 ∷ []) context path
          s
    if ltb size (length out.buf) then none else some (out, s')
