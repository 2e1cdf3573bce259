-- ===== src/Control.antt =====
-- src/fs.c: process_request, which answers one request on the control socket, and ctl_server.
pub mod Answers
pub mod Safety
pub mod Replies
pub mod Loop
pub mod Script
use chironfs.Base.{
  ℕ, zero, suc, ◌+◌, ◌*◌, ◌/◌, ◌%◌, ℤ, pos, negsuc, Bool, true, false, not, ◌||◌, ◌==◌, is_negative,
  is_nonzero, is_minus_one, take, leb, Option, none, some, List, [], ◌∷◌, ◌>>=◌, if◌then◌else◌,
  get_elem?,
}
use chironfs.Wire.{
  flag, bytes_of, number_of, is_count, get_max_replica, get_replica_status, get_replica_path,
  get_replica_total_read, get_replica_total_write, get_replica_priority, done,
}
use chironfs.Model.{
  Bytes, Replica, read_fd, write_fd, socket, bind, listen, accept, Kernel, State, call,
}

module _ {W : Type 0} (sys : Kernel W) (cfd : ℤ) where
  -- Writes `n` bytes from a pointer; 0, or -1 unless all were written.
  unfoldable pub send : Option Bytes → ℕ → State W → ℤ × State W
  send buf n s =
      let (res, s') = call sys (write_fd cfd buf n) s in
      if is_count n res.ret then (pos 0, s') else (negsuc 0, s')

  -- The length of the path, and then the path.
  unfoldable pub send_path : Replica → State W → ℤ × State W
  send_path r s =
      let (sent, s') = send (some (bytes_of 8 r.pathlen)) 8 s in
      let rest = send r.path r.pathlen s' in if is_negative sent then (sent, s') else rest

  -- Reads the number of a replica, and answers about it; none for a read outside the array.
  unfoldable pub about_replica : (Replica → State W → ℤ × State W) → State W → Option (ℤ × State W)
  about_replica reply s =
      let (res, s') = call sys (read_fd cfd 4) s in
      let c = number_of res.stored in
      let answer = get_elem? s'.config.replicas c >>= λ r. some (reply r s') in
      if not (is_count 4 res.ret) || leb s'.config.max_replica c
      then some (negsuc 0, s')
      else answer

  -- The switch on the action.
  unfoldable pub run_action : ℕ → State W → Option (ℤ × State W)
  run_action code s =
      if code == get_max_replica
      then some (send (some (bytes_of 4 s.config.max_replica)) 4 s)
      else if code == get_replica_status
      then about_replica (λ r. send (some (flag r.disabled)) 4) s
      else if code == get_replica_path
      then about_replica send_path s
      else if code == get_replica_total_read
      then about_replica (λ r. send (some (bytes_of 8 r.totrd)) 8) s
      else if code == get_replica_total_write
      then about_replica (λ r. send (some (bytes_of 8 r.totwr)) 8) s
      else if code == get_replica_priority
      then about_replica (λ r. send (some (flag r.priority)) 4) s
      else if code == done
      then some (negsuc 0, s)
      else some (pos 0, s)

  unfoldable pub process_request : State W → Option (ℤ × State W)
  process_request s =
      let (res, s') = call sys (read_fd cfd 1) s in
      let rest = run_action (number_of res.stored) s' in
      if is_count 1 res.ret then rest else some (negsuc 0, s')

  -- for(;;) if(process_request(cfd)) break, for at most `n` requests; none where they do not suffice.
  unfoldable pub serve : ℕ → State W → Option (State W)
  serve zero s = none
  serve (suc n) s = do (r, s') ← process_request s; if is_nonzero r then some s' else serve n s'

-- strncpy into sun_path, which has room for 107 bytes and a NUL.
abbrev pub sun_path : Bytes → Bytes
sun_path name = take 107 name

-- How ctl_server stands: stopped by exit(EXIT_FAILURE), or at its next accept.
pub data Serving (W : Type 0) : Type 0 where
  stopped : State W → Serving W
  waiting : State W → Serving W

module _ {W : Type 0} (sys : Kernel W) where
  -- The endless loop over the connections, for `n` of them, with `fuel` requests for each.
  unfoldable pub accept_loop : ℕ → ℕ → ℤ → State W → Option (Serving W)
  accept_loop zero fuel sfd s = some (waiting s)
  accept_loop (suc n) fuel sfd s =
      let (cfd, s') = call sys (accept sfd) s in
      let rest = serve sys cfd.ret fuel s' >>= accept_loop n fuel sfd in
      if is_minus_one cfd.ret then some (stopped s') else rest

  unfoldable pub listen_on : ℕ → ℕ → Bytes → State W → Option (Serving W)
  listen_on n fuel name s =
      let (sfd, s1) = call sys socket s in
      let (b, s2) = call sys (bind sfd.ret (sun_path name)) s1 in
      let (l, s3) = call sys (listen sfd.ret 5) s2 in
      let rest = accept_loop n fuel sfd.ret s3 in
      if is_minus_one sfd.ret
      then some (stopped s1)
      else if is_minus_one b.ret
      then some (stopped s2)
      else if is_minus_one l.ret
      then some (stopped s3)
      else rest

  -- ctl_server; none for a fault, as where there is no name for the socket.
  unfoldable pub ctl_server : ℕ → ℕ → State W → Option (Serving W)
  ctl_server n fuel s = s.config.ctl_socket_name >>= λ name. listen_on n fuel name s
