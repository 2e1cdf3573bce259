-- ===== src/Tests/Replicas.antt =====
-- The policy on faulty replicas at concrete inputs.
use chironfs.Base.{
  pos, negsuc, neg, Bool, true, [], ◌∷◌, ◌≡◌, refl, some, get_elem?, arith, ◌⊎◌, ◌≤◌, ◌<◌, String,
  ◌-◌,
}
use chironfs.Model.{errtab_text, outside_errtab}
use chironfs.Log.{reason, errtab}
use chironfs.Log.Laws.{reason-neg}
use chironfs.Policy.{disable_faulty_replicas, get_first_error}
use chironfs.Policy.Laws.{disable_faulty_replicas-exact, get_first_error-FirstError, FirstError}
use chironfs.Tests.Toy.{start, replica, mounted}

reason-neg_example :
    ((5 ≤ 7)
      × ((t : String) × (get_elem? errtab (5 - 1) ≡ some t) × (reason (neg 5) ≡ errtab_text t)))
    ⊎ ((7 < 5) × (reason (neg 5) ≡ outside_errtab (5 - 1)))
reason-neg_example = reason-neg 5 (omega arith)

disable_faulty_replicas-exact_example :
    get_elem?
      (disable_faulty_replicas "unlink" 2 1 (pos 0 ∷ negsuc 4 ∷ pos 0 ∷ []) start).config.replicas
      1
    ≡ some (record (replica (98 ∷ []) Bool.false) { disabled = true })
disable_faulty_replicas-exact_example =
    disable_faulty_replicas-exact "unlink" 2 1 (pos 0 ∷ negsuc 4 ∷ pos 0 ∷ []) start 1
      (replica (98 ∷ []) Bool.false) (negsuc 4) refl refl

get_first_error-FirstError_example :
    FirstError mounted
      (pos 0 ∷ negsuc 4 ∷ negsuc 1 ∷ [])
      (get_first_error mounted (pos 0 ∷ negsuc 4 ∷ negsuc 1 ∷ []))
get_first_error-FirstError_example =
    get_first_error-FirstError mounted (pos 0 ∷ negsuc 4 ∷ negsuc 1 ∷ [])
