-- ===== src/Tests/Starting.antt =====
-- Starting the program, at concrete inputs.
use chironfs.Base.{none}
use chironfs.Base.{pos, some, [], ◌∷◌, ◌≡◌, refl, arith}
use chironfs.Model.{Bytes, State, umask, call}
use chironfs.Start.{
  Options, OptEnd, exits, returned, stopped, chironfs_opt_proc, take_mountpoint, copied, main,
}
use chironfs.Start.Arguments.{
  Resolves, no_options, Chosen, proc_all, proc_all-Chosen, main-unusable, IsMount,
}
use chironfs.Start.Launch.{Mountable, Launches, main-Launches}
use chironfs.Mount.Owner.{Each}
use chironfs.Start.Owner.{Owned, main-Owned}
use chironfs.Tests.Toy.{World, toy, root}
use chironfs.Tests.Mounting.{strtok, argument, unmounted, toy-Roomy}

toy-Resolves : Resolves toy
toy-Resolves = record {
  copies = λ k text w. refl;
  resolves = λ k path w. refl;
  takes = λ k arg w. refl;
}

-- /m
abbrev point : Bytes
point = 47 ∷ 109 ∷ []

-- chironfs /m /a=:/c
proc_all-Chosen_example :
    Chosen toy
      (proc_all toy (point ∷ argument ∷ []) no_options unmounted)
      (some argument)
      (IsMount toy (some point))
      unmounted.config
proc_all-Chosen_example = proc_all-Chosen toy toy-Resolves (point ∷ argument ∷ []) unmounted

toy-Mountable : Mountable toy strtok (47 ∷ 97 ∷ []) ((58 ∷ 47 ∷ 99 ∷ []) ∷ [])
toy-Mountable = record {
  apart = refl;
  first_plain = refl;
  rest_plain = refl;
  some_high = refl;
  few = omega arith;
  room = toy-Roomy;
}

-- The options of that command.
abbrev given : Options
given = record no_options { replica_args = some argument; mountpoint = some (104 ∷ 105 ∷ []) }

abbrev state_of : OptEnd World → State World
state_of (exits t) = t
state_of (returned r o t) = t

abbrev parse : State World → OptEnd World
parse = proc_all toy (point ∷ argument ∷ []) no_options

abbrev parsed : State World
parsed = state_of (parse (call toy (umask (pos 0)) unmounted).1)

main-Launches_example : Launches 2 (main toy parse strtok unmounted)
unfolding proc_all chironfs_opt_proc take_mountpoint copied call
main-Launches_example =
    main-Launches toy parse strtok (47 ∷ 97 ∷ []) ((58 ∷ 47 ∷ 99 ∷ []) ∷ []) (pos 0) given
      (104 ∷ 105 ∷ []) unmounted parsed toy-Mountable refl refl refl refl refl

-- chironfs /m
main-unusable_example :
    (t : State World) × (main toy (proc_all toy (point ∷ []) no_options) strtok unmounted
      ≡ some (stopped (pos 1) t))
    × (t.config ≡ unmounted.config)
main-unusable_example = main-unusable toy toy-Resolves (point ∷ []) strtok unmounted refl

main-Owned_example :
    Each (Owned root (some (104 ∷ 105 ∷ [])) none) (main toy parse strtok unmounted)
unfolding proc_all chironfs_opt_proc take_mountpoint copied call
main-Owned_example = main-Owned toy parse strtok (pos 0) given unmounted parsed refl
