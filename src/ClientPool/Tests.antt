-- ===== src/ClientPool/Tests.antt =====
-- Runs of the pool of src/client_pool.rs.
use lkrequest_py.Prelude.{◌≡◌, refl, ok, false, List, [], ◌∷◌, some, All, get_elem?, arith}
use lkrequest_py.ClientPool.{Pool, round_robin, new}
use lkrequest_py.ClientPool.Rotation.{
  Op, acquires, adds, NoPanic, exec_all, new-never_panics, acquire_all, acquire_all-rotates,
}

abbrev pool : Pool
pool = record { clients = 5 ∷ 6 ∷ []; index = 0; strategy = round_robin; poisoned = false }

abbrev ops : List Op
ops = acquires 0 ∷ adds 7 ∷ acquires 3 ∷ []

new-never_panics_example : All NoPanic (exec_all ops pool).0
unfolding new
new-never_panics_example = new-never_panics (5 ∷ 6 ∷ []) "round_robin" pool ops refl

acquire_all-rotates_example : get_elem? (acquire_all (0 ∷ 0 ∷ 0 ∷ []) pool) 2 ≡ some (ok 5)
acquire_all-rotates_example =
    acquire_all-rotates (0 ∷ 0 ∷ 0 ∷ []) pool 2 5 refl refl (omega arith) (omega arith) refl
