-- ===== src/FdTable/Search.antt =====
-- The search of `fd_hashseekfree` for a free slot.
use chironfs.Base.{
  ℕ, zero, suc, ◌+◌, ◌^◌, ◌≤◌, ◌<◌, true, false, not, ◌&&◌, Option, none, some, ◌≡◌, refl, inl, inr,
  ltb, ltb→lt, not_ltb→le, arith, Bool-cases,
}
use native.Mathlib.Decide.{ℕ_discrete, dec_lt}
use chironfs.Hash.{u32}
use chironfs.Model.{FdTable}
use chironfs.FdTable.{is_free, seek, find_free}

-- What the loop has done when it stops at `r`, started at `i`.
pub record Sought (t : FdTable) (stop i r : ℕ) : Type 0 where
  pub from_start : i ≤ r
  pub within : r ≤ stop
  pub at_free : r < stop → is_free t r ≡ true
  pub passed_used : (j : ℕ) → i ≤ j → j < r → is_free t j ≡ false

Sought-step :
    (t : FdTable) (stop i r : ℕ) → is_free t i ≡ false → Sought t stop (i + 1) r → Sought t stop i r
Sought-step t stop i r u a = record {
  from_start = omega arith;
  within = a.within;
  at_free = a.at_free;
  passed_used = λ j k l. elim (ℕ_discrete i j) [
    | yes e ↦ rw (← e) u
    | no ne ↦ a.passed_used j (omega arith) l
  ];
}

-- With enough rounds the loop ends by its test.
pub seek-Sought :
    (t : FdTable) (stop n i : ℕ)
    → stop ≤ 2 ^ 31
    → i ≤ stop
    → stop ≤ i + n
    → Sought t stop i (seek t stop n i)
unfolding seek
seek-Sought t stop zero i b h g = record {
  from_start = omega arith;
  within = omega arith;
  at_free = λ k. absurd (omega arith);
  passed_used = λ j k l. absurd (omega arith);
}
seek-Sought t stop (suc n) i b h g = elim (Bool-cases (not (is_free t i) && ltb i stop)) [
  | inl on ↦
      let lt : i < stop = ground arith in
      let e : u32 (i + 1) ≡ i + 1 = omega arith in
      rw (on, e)
        (Sought-step t stop i _ (ground arith)
          (seek-Sought t stop n (i + 1) b (omega arith) (omega arith)))
  | inr off ↦ rw off (record {
    from_start = omega arith;
    within = h;
    at_free = λ k. ground arith;
    passed_used = λ j k l. absurd (omega arith);
  })
]

-- What `find_free` promises: a free slot, or none because every slot is used.
pub data Found (t : FdTable) (size : ℕ) (r : Option ℕ) : Type 0 where
  slot : (i : ℕ) → r ≡ some i → i < size → is_free t i ≡ true → Found t size r
  full : r ≡ none → ((j : ℕ) → j < size → is_free t j ≡ false) → Found t size r

-- From any start inside the table the search finds a free slot if the table has one, and reports
-- failure exactly if every slot is used. The bound is where an `unsigned` turns negative as an `int`.
pub find_free-Found :
    (t : FdTable) (size fd_ndx : ℕ)
    → size ≤ 2 ^ 31
    → fd_ndx < size
    → Found t size (find_free size t fd_ndx)
unfolding find_free
find_free-Found t size fd_ndx b h =
    let a = seek-Sought t size size fd_ndx b (omega arith) (omega arith) in
    let c = seek-Sought t fd_ndx fd_ndx 0 (omega arith) (omega arith) (omega arith) in
    let i = seek t size size fd_ndx in
    let j = seek t fd_ndx fd_ndx 0 in
    elim (Bool-cases (ltb i size)) [
      | inl p ↦ rw p (slot i refl (ltb→lt i size p) (a.at_free (ltb→lt i size p)))
      | inr p ↦ elim (Bool-cases (ltb j fd_ndx)) [
        | inl q ↦
            rw (p, q)
              (slot j refl (omega (arith, ltb→lt j fd_ndx q)) (c.at_free (ltb→lt j fd_ndx q)))
        | inr q ↦
            rw (p, q)
              (full refl (λ k l. elim (dec_lt k fd_ndx) [
                | yes lt ↦ c.passed_used k (omega arith) (omega (arith, not_ltb→le j fd_ndx q))
                | no ge ↦ a.passed_used k (omega arith) (omega (arith, not_ltb→le i size p))
              ]))
      ]
    ]
