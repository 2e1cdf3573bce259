-- ===== src/Log.antt =====
-- src/debug.c: `errtab` and `_log`. The time stamp of a line is not modelled.
pub mod Laws
use chironfs.Base.{
  ℕ, suc, ◌-◌, ℤ, pos, negsuc, is_nonzero, Bool, true, not, String, Option, none, some, List, [],
  ◌∷◌, ◌++◌, if◌then◌else◌, get_elem?,
}
use chironfs.Model.{Bytes, Reason, silent, errtab_text, strerror, outside_errtab, LogLine, State}
use mathlib.Core.Bool.{false}

abbrev pub errtab : List String
errtab =
    "Low memory" ∷ "Log file must be outside of the mount point" ∷ "" ∷ "Too many opened files"
    ∷ "Cannot open the log file"
    ∷ "Invalid PATH_MAX definition, check your include files and recompile"
    ∷ "Forced by administrator" ∷ []

-- errtab[n]
unfoldable pub errtab_at : ℕ → Reason
errtab_at n = elim (get_elem? errtab n) [ none ↦ outside_errtab n | some t ↦ errtab_text t ]

-- The text for `err`: nothing for 0, `strerror` above it, and errtab[-(err+1)] below it, which may be behind
-- errtab: that line is marked, and the model goes on.
unfoldable pub reason : ℤ → Reason
unfolding errtab_at
reason (pos n) = if is_nonzero (pos n) then strerror n else silent
reason (negsuc n) = errtab_at n

-- err != CHIRONFS_ADM_FORCED, which is -7
not_forced : ℤ → Bool
not_forced (pos n) = true
not_forced (negsuc n) = elim n [
  | suc (suc (suc (suc (suc (suc r))))) ↦ elim r [ suc q ↦ true | _ ↦ false ]
  | _ ↦ true
]

module _ {W : Type 0} where
  -- `_log` writes a line if a log file is open.
  unfoldable pub log : String → Option Bytes → ℤ → State W → State W
  unfolding reason not_forced
  log fnname resource err s = elim s.logfd [
    | none ↦ s
    | some lines ↦ record s { logfd = some (lines ++ line ∷ []) }
  ]
    where
      line : LogLine
      line = record {
        fnname = fnname;
        failed_accessing = not_forced err;
        resource = resource;
        reason = reason err;
      }
