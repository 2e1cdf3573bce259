-- ===== src/Attributes.antt =====
-- src/fs.c: the handlers that change what a file is: chiron_truncate, chiron_chmod, chiron_chown and
-- chiron_utime.
use chironfs.Base.{ℕ, ℤ, is_negative, Option}
use chironfs.Model.{Bytes, Cred, truncate, chmod, lchown, utime, Kernel, State}
use chironfs.Mirror.{visit, try_call, mirror}

module _ {W : Type 0} (sys : Kernel W) (context : Cred) where
  unfoldable pub chiron_truncate : Bytes → ℤ → State W → ℤ × State W
  chiron_truncate path_orig size =
      mirror sys "truncate" context
        (visit sys (λ fname. try_call sys is_negative (truncate fname size)) path_orig)

  unfoldable pub chiron_chmod : Bytes → ℕ → State W → ℤ × State W
  chiron_chmod path_orig mode =
      mirror sys "chmod" context
        (visit sys (λ fname. try_call sys is_negative (chmod fname mode)) path_orig)

  unfoldable pub chiron_chown : Bytes → ℕ → ℕ → State W → ℤ × State W
  chiron_chown path_orig uid gid =
      mirror sys "chown" context
        (visit sys (λ fname. try_call sys is_negative (lchown fname uid gid)) path_orig)

  unfoldable pub chiron_utime : Bytes → Option (ℤ × ℤ) → State W → ℤ × State W
  chiron_utime path_orig buf =
      mirror sys "utime" context
        (visit sys (λ fname. try_call sys is_negative (utime fname buf)) path_orig)
