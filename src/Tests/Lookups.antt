-- ===== src/Tests/Lookups.antt =====
-- Requests that one replica serves, at concrete inputs.
use chironfs.Scan.Result.{result_of, replicas_of}
use chironfs.Priv.{drop_priv, set_euid, set_egid}
use chironfs.Lookup.Served.{looked, lookup-looked}
use chironfs.Mirror.Laws.{started}
use chironfs.Base.{
  ℕ, zero, suc, ◌<◌, pos, is_nonzero, true, none, some, [], ◌∷◌, ◌≡◌, refl, arith, get_or,
}
use chironfs.Model.{State, lstat, call}
use chironfs.Scan.Total.{Mounted}
use chironfs.FileIo.{ReadReply, chiron_read}
use chironfs.FileIo.Served.{read_through, ReadEnd, chiron_read-ReadEnd}
use chironfs.Lookup.{lookup, kept}
use chironfs.Lookup.Laws.{lookup_all_low}
use chironfs.Tests.Toy.{World, toy, start, one_open, config, alice, x_path, replica, mounted}

high_in : (i : ℕ) → i < 2 → get_or (0 ∷ 1 ∷ 0 ∷ []) i 0 < 3
high_in zero h = omega arith
high_in (suc zero) h = omega arith
high_in (suc (suc i)) h = absurd (omega arith)

low_in : (i : ℕ) → i < 1 → get_or (2 ∷ 0 ∷ 0 ∷ []) i 0 < 3
low_in zero h = omega arith
low_in (suc i) h = absurd (omega arith)

pub one_open-Mounted : Mounted one_open.config
one_open-Mounted = record { choice = omega arith; count = refl; high_in = high_in; low_in = low_in }

chiron_read-ReadEnd_example :
    let u = started toy alice one_open in
    let fds = pos 7 ∷ pos 0 ∷ pos 9 ∷ [] in
    (out : ReadReply) × (t : State World) × (chiron_read toy alice 2 (pos 0) 1 one_open
      ≡ some (out, t))
    × ReadEnd toy fds 2
        (pos 0)
        u.cred
        mounted
        (read_through toy fds 2 (pos 0) u.cred one_open.config u.world)
        out
        t.config.replicas
unfolding drop_priv set_euid set_egid call
chiron_read-ReadEnd_example =
    chiron_read-ReadEnd toy (pos 7 ∷ pos 0 ∷ pos 9 ∷ []) 2 (pos 0) alice 1 one_open one_open-Mounted
      refl refl refl

lookup-looked_example :
    let u = started toy alice one_open in
    let got = looked toy is_nonzero lstat x_path u.cred one_open.config u.world in
    (t : State World) × (lookup toy "getattr" is_nonzero lstat (λ r. r.stored) alice x_path one_open
      ≡ some
          (record { ret = result_of (pos 0) mounted got; buf = kept (λ r. r.stored) got.reply }, t))
    × (t.config.replicas ≡ replicas_of mounted got)
unfolding drop_priv set_euid set_egid call
lookup-looked_example =
    lookup-looked toy is_nonzero lstat x_path "getattr" (λ r. r.stored) alice one_open
      one_open-Mounted refl

-- One replica, of low priority.
abbrev all_low : State World
all_low = record start {
  config = record config {
    max_replica = 1;
    max_replica_high = 0;
    max_replica_low = 1;
    round_robin_high = 0 ∷ [];
    round_robin_low = 0 ∷ [];
    replicas = replica (99 ∷ []) true ∷ [];
  };
}

lookup_all_low_example :
    lookup toy "getattr" is_nonzero lstat (λ r. r.stored) alice x_path all_low ≡ none
unfolding call
lookup_all_low_example =
    lookup_all_low toy "getattr" is_nonzero lstat (λ r. r.stored) alice x_path all_low refl
      (omega arith) refl
