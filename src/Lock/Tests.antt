-- ===== src/Lock/Tests.antt =====
-- Runs of the lock.
use mikmongo.Base.{◌*◌, ◌≤◌, ◌≡◌, refl, inl, inr, some, arith, ◌==◌, Bool-cases}
use mikmongo.Lock.{
  trying, creating, inside, forced, World, go, with_lock, call, again, create, start, stale_after,
  Reach,
}
use mikmongo.Lock.Exclusion.{
  IsExclusive, AllPatient, PatientReach, patient_start, patient_next, PatientReach-IsExclusive,
  fresh_lock_overtaken,
}

-- Process 7 is in `fn`.
abbrev seven_inside : World
seven_inside =
    let w1 = go start 7 (trying 0) in
    let w2 = go w1 7 (creating 0) in with_lock (go w2 7 (inside 0)) (some 0)

seven_trying-AllPatient : AllPatient (go start 7 (trying 0))
seven_trying-AllPatient p = elim (Bool-cases (p == 7)) [ inl e ↦ rw e tt | inr e ↦ rw e tt ]

seven_creating-AllPatient : AllPatient (go (go start 7 (trying 0)) 7 (creating 0))
seven_creating-AllPatient p = elim (Bool-cases (p == 7)) [ inl e ↦ rw e tt | inr e ↦ rw e tt ]

seven_reach : PatientReach seven_inside
seven_reach =
    patient_next
      (patient_next (patient_next patient_start (λ p. tt) (call 7 refl refl))
        seven_trying-AllPatient (again 7 0 refl (ground arith) refl))
      seven_creating-AllPatient (create 7 0 refl refl refl)

PatientReach-IsExclusive_example : IsExclusive seven_inside
PatientReach-IsExclusive_example = PatientReach-IsExclusive seven_reach

fresh_lock_overtaken_example :
    (w : World) × Reach start w
    × (w.stage 1 ≡ inside 0)
    × (w.stage 2 ≡ forced 10000)
    × (w.now ≡ 10000)
    × (3 * w.now ≤ stale_after)
fresh_lock_overtaken_example = fresh_lock_overtaken 1 2 (ground arith)
