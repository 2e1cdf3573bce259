-- ===== src/Tests/Sockets.antt =====
-- Requests on the control socket, at concrete inputs.
use chironfs.Base.{
  ℕ, Bool, true, false, pos, refl, sym, some, [], ◌∷◌, ◌++◌, ◌≡◌, map, length, suc, arith, Returns,
}
use chironfs.Model.{Bytes, State}
use chironfs.Wire.Questions.{how_many, about, status, encode, reply}
use chironfs.Control.{process_request, serve}
use chironfs.Control.Safety.{Answered, process_request-Answered}
use chironfs.Control.Replies.{Replied, process_request-Replied}
use chironfs.Control.Loop.{serve_total}
use chironfs.Control.Script.{encodes, serve-replies}
use chironfs.Ctl.{report}
use chironfs.Ctl.Asking.{shown, Printable}
use chironfs.Ctl.Script.{
  script, all_replies_of, AllPrintable, AllPrintable-AllNamed, Answerable-script,
}
use chironfs.Ctl.Exchange.{report-serve}
use chironfs.Tests.Toy.{toy, start, config, mounted, root, alice, replica}
use chironfs.Tests.Wired.{Wires, wired, wired-Stream}

process_request-Answered_example : Answered start (process_request toy (pos 5) start)
process_request-Answered_example = process_request-Answered toy (pos 5) start refl

-- The server with these bytes waiting for it.
abbrev served : Bytes → State Wires
served i = record { config = config; cred = root; logfd = some []; world = (i, []) }

good : (x : ℕ) (low : Bool) → Printable (replica (x ∷ []) low)
good x low = record {
  named = (x ∷ [], refl, refl);
  len = omega arith;
  rd = omega arith;
  wr = omega arith;
}

mounted-AllPrintable : AllPrintable mounted
mounted-AllPrintable = (good 97 false, (good 98 false, (good 99 true, tt)))

-- The status of replica 1, with a byte after the question.
abbrev asked : State Wires
asked = served (encode (about status 1) ++ 6 ∷ [])

process_request-Replied_example :
    Replied wired
      (pos 5)
      (wired-Stream (pos 5))
      (reply config (about status 1))
      asked
      (6 ∷ [])
      (process_request wired (pos 5) asked)
process_request-Replied_example =
    process_request-Replied wired (pos 5) (wired-Stream (pos 5)) (about status 1) (6 ∷ []) asked
      (omega arith) refl (AllPrintable-AllNamed mounted mounted-AllPrintable) refl

-- Three bytes that are no questions.
serve_total_example : Returns (serve wired (pos 5) 4 (served (9 ∷ 1 ∷ 7 ∷ [])))
serve_total_example =
    serve_total wired (pos 5) (wired-Stream (pos 5)) 4 (served (9 ∷ 1 ∷ 7 ∷ [])) (omega arith) refl

-- chironctl has asked all that it asks.
abbrev all_asked : State Wires
all_asked = served (encodes (script 3))

conversation :
    (t : State Wires) × (serve wired (pos 5) (suc (length (script 3))) all_asked ≡ some t)
    × (t.world.1 ≡ all_replies_of config)
    × (t.config ≡ config)
conversation =
    serve-replies wired (pos 5) (wired-Stream (pos 5)) (script 3) (all_replies_of config) all_asked
      (Answerable-script config refl (omega arith)) refl
      (AllPrintable-AllNamed mounted mounted-AllPrintable) refl

report-serve_example :
    (v : Wires) × (report wired alice (pos 3) (all_replies_of config, [])
      ≡ some ((3, map shown mounted), v))
    × (v.1 ≡ encodes (script 3))
report-serve_example =
    report-serve wired (pos 5) (wired-Stream (pos 5)) wired alice (pos 3) (wired-Stream (pos 3))
      all_asked conversation.0 (all_replies_of config, []) refl (omega arith) mounted-AllPrintable
      refl refl conversation.1 (sym conversation.2)

serve-replies_example :
    (t : State Wires) × (serve wired (pos 5) 2 (served (encode how_many)) ≡ some t)
    × (t.world.1 ≡ 3 ∷ 0 ∷ 0 ∷ 0 ∷ [])
    × (t.config ≡ config)
serve-replies_example =
    serve-replies wired (pos 5) (wired-Stream (pos 5)) (how_many ∷ []) (3 ∷ 0 ∷ 0 ∷ 0 ∷ [])
      (served (encode how_many)) (_, _, tt, refl, refl, refl) refl
      (AllPrintable-AllNamed mounted mounted-AllPrintable) refl
