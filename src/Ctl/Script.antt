-- ===== src/Ctl/Script.antt =====
-- What chironctl asks, and what the control server replies.
use mathlib.Core.Path.{subst}
use chironfs.Base.{
  ℕ, zero, suc, ◌+◌, ◌^◌, ◌<◌, some, List, [], ◌∷◌, ◌++◌, ◌≡◌, refl, arith, length, get_elem?,
}
use chironfs.Model.{Bytes, Replica, Config}
use chironfs.Wire.{bytes_of, flag}
use chironfs.Wire.Questions.{
  Field, answer, status, path, total_read, total_write, priority, Question, how_many, about, text,
  reply, reply_some, AllNamed,
}
use chironfs.Control.Script.{Answerable}
use chironfs.Ctl.Asking.{Printable}

-- The questions about `n` replicas from number `i` on, before others.
abbrev pub questions : ℕ → ℕ → List Question
questions i zero = []
questions i (suc n) =
    about path i
    ∷ about status i
    ∷ about priority i
    ∷ about total_read i
    ∷ about total_write i
    ∷ questions (suc i) n

-- All that chironctl asks.
abbrev pub script : ℕ → List Question
script n = how_many ∷ questions 0 n

-- What the server replies about a replica, before `rest`.
abbrev pub replies_of : Replica → Bytes → Bytes
replies_of r rest =
    bytes_of 8 r.pathlen
    ++ (text r.path
        ++ (flag r.disabled
            ++ (flag r.priority ++ (bytes_of 8 r.totrd ++ (bytes_of 8 r.totwr ++ rest)))))

abbrev pub all_replies : List Replica → Bytes
all_replies [] = []
all_replies (r ∷ rs) = replies_of r (all_replies rs)

abbrev pub all_replies_of : Config → Bytes
all_replies_of c = bytes_of 4 c.max_replica ++ all_replies c.replicas

-- `rs` are the replicas from number `i` on.
abbrev pub From : List Replica → ℕ → List Replica → Type 0
From all i [] = Unit {0}
From all i (r ∷ rs) = (get_elem? all i ≡ some r) × From all (suc i) rs

pub From-tail :
    (x : Replica) (all : List Replica) (i : ℕ) (rs : List Replica)
    → From all i rs
    → From (x ∷ all) (suc i) rs
From-tail x all i [] f = tt
From-tail x all i (r ∷ rs) f = (f.0, From-tail x all (suc i) rs f.1)

pub From-all : (rs : List Replica) → From rs 0 rs
From-all [] = tt
From-all (r ∷ rs) = (refl, From-tail r rs 0 rs (From-all rs))

pub Answerable-questions :
    (c : Config) (i : ℕ) (rs : List Replica)
    → From c.replicas i rs
    → i + length rs < 2 ^ 32
    → Answerable c (questions i (length rs)) (all_replies rs)
Answerable-questions c i [] f b = refl
Answerable-questions c i (r ∷ rs) f b =
    let small : i < 2 ^ 32 = omega arith in
    let is : (x : Field) → reply c (about x i) ≡ some (answer x r) = λ x. reply_some c x i r f.0 in
    (
      _,
      _,
      small,
      is path,
      refl,
      (
        _,
        _,
        small,
        is status,
        refl,
        (
          _,
          _,
          small,
          is priority,
          refl,
          (
            _,
            _,
            small,
            is total_read,
            refl,
            (
              _,
              _,
              small,
              is total_write,
              refl,
              Answerable-questions c (suc i) rs f.1 (omega arith),
            ),
          ),
        ),
      ),
    )

pub Answerable-script :
    (c : Config)
    → length c.replicas ≡ c.max_replica
    → c.max_replica < 2 ^ 32
    → Answerable c (script c.max_replica) (all_replies_of c)
Answerable-script c l b = (
  _,
  _,
  tt,
  refl,
  refl,
  subst (λ n. Answerable c (questions 0 n) (all_replies c.replicas)) l
      (Answerable-questions c 0 c.replicas (From-all c.replicas) (omega (arith, l))),
)

-- Each replica can be printed.
abbrev pub AllPrintable : List Replica → Type 0
AllPrintable [] = Unit {0}
AllPrintable (r ∷ rs) = Printable r × AllPrintable rs

pub AllPrintable-AllNamed : (rs : List Replica) → AllPrintable rs → AllNamed rs
AllPrintable-AllNamed [] a = tt
AllPrintable-AllNamed (r ∷ rs) a = (a.0.named, AllPrintable-AllNamed rs a.1)
