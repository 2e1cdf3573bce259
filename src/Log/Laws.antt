-- ===== src/Log/Laws.antt =====
-- Which text `_log` finds for the negative error numbers of the handlers.
use chironfs.Base.{
  ℕ, zero, suc, ◌-◌, ◌≤◌, ◌<◌, ◌≡◌, refl, ◌⊎◌, inl, inr, neg, arith, String, ap, some, get_elem?,
}
use chironfs.Model.{errtab_text, outside_errtab}
use chironfs.Log.{reason, errtab}

-- The handlers hand `_log` an error as -errno, of a positive errno. Up to 7 `_log` takes the entry
-- errno - 1 of `errtab` for it, and above 7 it reads outside `errtab`.
pub reason-neg :
    (e : ℕ)
    → 0 < e
    → ((e ≤ 7)
        × ((t : String) × (get_elem? errtab (e - 1) ≡ some t) × (reason (neg e) ≡ errtab_text t)))
      ⊎ ((7 < e) × (reason (neg e) ≡ outside_errtab (e - 1)))
unfolding reason
reason-neg zero h = absurd (omega arith)
reason-neg (suc zero) h = inl (omega arith, (_, refl, refl))
reason-neg (suc (suc zero)) h = inl (omega arith, (_, refl, refl))
reason-neg (suc (suc (suc zero))) h = inl (omega arith, (_, refl, refl))
reason-neg (suc (suc (suc (suc zero)))) h = inl (omega arith, (_, refl, refl))
reason-neg (suc (suc (suc (suc (suc zero))))) h = inl (omega arith, (_, refl, refl))
reason-neg (suc (suc (suc (suc (suc (suc zero)))))) h = inl (omega arith, (_, refl, refl))
reason-neg (suc (suc (suc (suc (suc (suc (suc zero))))))) h = inl (omega arith, (_, refl, refl))
reason-neg (suc (suc (suc (suc (suc (suc (suc (suc n)))))))) h =
    inr (omega arith, ap outside_errtab (omega arith))
