-- ===== src/Tests/Files.antt =====
-- Opening and writing files, at concrete inputs.
use chironfs.Base.{ℤ, ◌≡◌, pos, [], ◌∷◌, some, none, refl, arith}
use chironfs.Model.{State, open_path, call}
use chironfs.FdTable.{find_free, fd_hashset, first_fd, fd_hashseekfree, seek, put_slot}
use chironfs.FdTable.Search.{Found, find_free-Found}
use chironfs.FdTable.Slots.{TableFits, Stored, fd_hashset-Stored}
use chironfs.OpenFiles.{
  open_file, chiron_release, open_body, open_end, open_all, open_visit, open_fname, store_fds,
}
use chironfs.Mirror.{succ_cnt, fail_cnt, err_list, xlate}
use chironfs.Priv.{drop_priv, reacquire_priv, set_egid, set_euid}
use chironfs.Policy.{disable_faulty_replicas, disable_loop, disable_replica}
use chironfs.Log.{log}
use chironfs.Hash.{hash_fd, hash}
use chironfs.OpenFiles.Releasing.{open_file-release}
use chironfs.OpenFiles.Opening.{OpenEnd, open_file-OpenEnd}
use chironfs.FileIo.{chiron_write}
use chironfs.FileIo.Writing.{WriteEnd, results, chiron_write-WriteEnd}
use chironfs.Mirror.Laws.{started}
use chironfs.Tests.Toy.{
  World, mounted, one_open, toy, toy-Posix, start, config, alice, root, x_path,
}

config-TableFits : TableFits config
config-TableFits = omega arith

-- Slots 0 and 3 are used, and the search starts at 3.
find_free-Found_example :
    Found
      (some [] ∷ none ∷ none ∷ some [] ∷ [])
      4
      (find_free 4 (some [] ∷ none ∷ none ∷ some [] ∷ []) 3)
find_free-Found_example =
    find_free-Found (some [] ∷ none ∷ none ∷ some [] ∷ []) 4 3 (omega arith) (omega arith)

fd_hashset-Stored_example :
    Stored
      (pos 7 ∷ pos 0 ∷ pos 9 ∷ [])
      config
      (fd_hashset (pos 7 ∷ pos 0 ∷ pos 9 ∷ []) start).0
      (fd_hashset (pos 7 ∷ pos 0 ∷ pos 9 ∷ []) start).1.config
fd_hashset-Stored_example = fd_hashset-Stored (pos 7 ∷ pos 0 ∷ pos 9 ∷ []) start config-TableFits

open_file-OpenEnd_example :
    let out = open_file toy "open" (λ f. open_path f 0) alice x_path start in
    OpenEnd config out.0.0 out.0.1 out.1.config
open_file-OpenEnd_example =
    open_file-OpenEnd toy toy-Posix "open" (λ f. open_path f 0) alice x_path start config-TableFits
      refl

chiron_write-WriteEnd_example :
    (ret : ℤ) × (t : State World) × (chiron_write toy alice (104 ∷ 105 ∷ []) (pos 0) 1 one_open
      ≡ some (ret, t))
    × WriteEnd mounted
        (results toy
          (104 ∷ 105 ∷ [])
          (pos 0)
          mounted
          (pos 7 ∷ pos 0 ∷ pos 9 ∷ [])
          (started toy alice one_open))
        ret
        t.config.replicas
unfolding call
chiron_write-WriteEnd_example =
    chiron_write-WriteEnd toy (104 ∷ 105 ∷ []) (pos 0) toy-Posix alice 1
      (pos 7 ∷ pos 0 ∷ pos 9 ∷ []) one_open refl refl refl

-- The open finds slot 0.
opened_slot : (open_file toy "open" (λ f. open_path f 0) alice x_path start).0.1 ≡ some 0
unfolding open_file open_body open_end open_all open_visit open_fname store_fds call succ_cnt
    fail_cnt err_list xlate drop_priv reacquire_priv set_egid set_euid fd_hashset first_fd
    disable_faulty_replicas disable_loop disable_replica log fd_hashseekfree find_free seek hash_fd
    hash put_slot
opened_slot = refl

open_file-release_example :
    let u = (open_file toy "open" (λ f. open_path f 0) alice x_path start).1 in
    (ret : ℤ) × (t : State World) × (chiron_release toy root 0 u ≡ some (ret, t))
    × (t.config ≡ record (u.config) { tab_fd = start.config.tab_fd })
open_file-release_example =
    open_file-release toy toy-Posix "open" (λ f. open_path f 0) alice root x_path start 0
      config-TableFits refl opened_slot
