-- ===== src/Lock/Exclusion.antt =====
-- Mutual exclusion, where it holds and where it is lost.
use mikmongo.Base.{
  ℕ, ◌+◌, ◌*◌, ◌≤◌, ◌≡◌, refl, sym, ◌∙◌, ◌≢◌, ◌⊎◌, inl, inr, none, some, arith, ◌==◌, ==_iff,
  ==_refl, Bool-cases, false,
}
use mikmongo.Lock.{
  Stage, idle, trying, creating, checking, breaking, inside, leaving, forcing, forced, World, moved,
  go, with_lock, Step, tick, call, again, create, exists, expire, look_gone, look_stale, look_fresh,
  break_stale, finish, release, force, forced_finish, start, stale_after, Reach, here, next,
}

-- The process is between the creation of the lock file and its removal.
abbrev pub Holds : Stage → Type 0
Holds (inside t) = Unit
Holds leaving = Unit
Holds _ = ⊥

-- The process takes no way around the lock: it has neither seen a stale file nor run out of time.
abbrev pub IsPatient : Stage → Type 0
IsPatient (breaking t) = ⊥
IsPatient forcing = ⊥
IsPatient (forced t) = ⊥
IsPatient _ = Unit

abbrev pub AllPatient : World → Type 0
AllPatient w = (p : ℕ) → IsPatient (w.stage p)

pub record IsExclusive (w : World) : Type 0 where
  pub one : (p q : ℕ) → Holds (w.stage p) → Holds (w.stage q) → p ≡ q
  pub locked : (p : ℕ) → Holds (w.stage p) → w.lock ≢ none

moved-Holds :
    (stage : ℕ → Stage) (p q : ℕ) (s : Stage)
    → Holds (moved stage p s q)
    → ((q ≡ p) × Holds s) ⊎ ((q ≢ p) × Holds (stage q))
moved-Holds stage p q s h = elim (Bool-cases (q == p)) [
  | inl e ↦ inl ((==_iff q p).0 e, rw e at h)
  | inr e ↦ inr ((λ f. cc ((==_iff q p).1 f, e)), rw e at h)
]

-- A process that holds nothing afterwards.
go-IsExclusive :
    (w : World) (p : ℕ) (s : Stage) → ¬ Holds s → IsExclusive w → IsExclusive (go w p s)
go-IsExclusive w p s n i = record {
  one = λ a b ha hb. elim (moved-Holds w.stage p a s ha) [
    | inl x ↦ absurd (n x.1)
    | inr x ↦ elim (moved-Holds w.stage p b s hb) [
      | inl y ↦ absurd (n y.1)
      | inr y ↦ i.one a b x.1 y.1
    ]
  ];
  locked = λ a ha. elim (moved-Holds w.stage p a s ha) [
    | inl x ↦ absurd (n x.1)
    | inr x ↦ i.locked a x.1
  ];
}

create-IsExclusive :
    (w : World) (p t : ℕ)
    → w.lock ≡ none
    → IsExclusive w
    → IsExclusive (with_lock (go w p (inside t)) (some t))
create-IsExclusive w p t e i =
    let only = λ (a : ℕ) (ha : Holds (moved w.stage p (inside t) a)).
      let r : a ≡ p = elim (moved-Holds w.stage p a (inside t) ha) [
        | inl x ↦ x.0
        | inr x ↦ absurd (i.locked a x.1 e)
      ] in
      r in
    record { one = λ a b ha hb. only a ha ∙ sym (only b hb); locked = λ a ha f. cc }

-- Holding by `p` excludes every other process.
others-idle :
    (w : World) (p a : ℕ) → IsExclusive w → Holds (w.stage p) → a ≢ p → ¬ Holds (w.stage a)
others-idle w p a i hp n ha = n (i.one a p ha hp)

finish-IsExclusive :
    (w : World) (p : ℕ) → Holds (w.stage p) → IsExclusive w → IsExclusive (go w p leaving)
finish-IsExclusive w p hp i =
    let only = λ (a : ℕ) (ha : Holds (moved w.stage p leaving a)).
      let r : a ≡ p = elim (moved-Holds w.stage p a leaving ha) [
        | inl x ↦ x.0
        | inr x ↦ i.one a p x.1 hp
      ] in
      r in
    record { one = λ a b ha hb. only a ha ∙ sym (only b hb); locked = λ a ha. i.locked p hp }

release-IsExclusive :
    (w : World) (p : ℕ)
    → Holds (w.stage p)
    → IsExclusive w
    → IsExclusive (with_lock (go w p idle) none)
release-IsExclusive w p hp i =
    let nobody = λ (a : ℕ) (ha : Holds (moved w.stage p idle a)).
      let r : ⊥ = elim (moved-Holds w.stage p a idle ha) [
        | inl x ↦ x.1
        | inr x ↦ x.0 (i.one a p x.1 hp)
      ] in
      r in
    record { one = λ a b ha hb. absurd (nobody a ha); locked = λ a ha. absurd (nobody a ha) }

Holds-inside : (s : Stage) (t : ℕ) → s ≡ inside t → Holds s
Holds-inside s t e = rw e tt

Step-IsExclusive : {w u : World} → Step w u → AllPatient w → IsExclusive w → IsExclusive u
Step-IsExclusive {w} (tick n e) a i = rw e (record { one = i.one; locked = i.locked })
Step-IsExclusive {w} (call p s e) a i = rw e (go-IsExclusive w p (trying w.now) (λ h. h) i)
Step-IsExclusive {w} (again p t s b e) a i = rw e (go-IsExclusive w p (creating t) (λ h. h) i)
Step-IsExclusive {w} (create p t s f e) a i = rw e (create-IsExclusive w p w.now f i)
Step-IsExclusive {w} (exists p t m s f e) a i = rw e (go-IsExclusive w p (checking t) (λ h. h) i)
Step-IsExclusive {w} (expire p t s b e) a i = rw e (go-IsExclusive w p forcing (λ h. h) i)
Step-IsExclusive {w} (look_gone p t s f e) a i = rw e (go-IsExclusive w p (trying t) (λ h. h) i)
Step-IsExclusive {w} (look_stale p t m s f b e) a i =
    rw e (go-IsExclusive w p (breaking t) (λ h. h) i)
Step-IsExclusive {w} (look_fresh p t m s f b e) a i =
    rw e (go-IsExclusive w p (trying t) (λ h. h) i)
Step-IsExclusive {w} (break_stale p t s e) a i = absurd (rw s at (a p))
Step-IsExclusive {w} (finish p t s e) a i = rw e (finish-IsExclusive w p (rw s tt) i)
Step-IsExclusive {w} (release p s e) a i = rw e (release-IsExclusive w p (rw s tt) i)
Step-IsExclusive {w} (force p s e) a i = absurd (rw s at (a p))
Step-IsExclusive {w} (forced_finish p t s e) a i = absurd (rw s at (a p))

-- A run in which no process ever takes a way around the lock.
pub data PatientReach : World → Type 0 where
  patient_start : PatientReach start
  patient_next : {w u : World} → PatientReach w → AllPatient w → Step w u → PatientReach u

-- As long as no process has seen a stale file or run out of time, at most one process stands between
-- the creation of the lock file and its removal, and the file is there while one does.
pub PatientReach-IsExclusive : {w : World} → PatientReach w → IsExclusive w
PatientReach-IsExclusive patient_start = record {
  one = λ p q h k. absurd h;
  locked = λ p h. absurd h;
}
PatientReach-IsExclusive (patient_next r a s) = Step-IsExclusive s a (PatientReach-IsExclusive r)

moved_self : (stage : ℕ → Stage) (p : ℕ) (s : Stage) → moved stage p s p ≡ s
moved_self stage p s = rw (==_refl p) refl

-- The first process is in `fn`, with the lock file created at once.
abbrev entered : ℕ → World
entered p =
    let w1 = go start p (trying 0) in
    let w2 = go w1 p (creating 0) in with_lock (go w2 p (inside 0)) (some 0)

Reach-entered : (p : ℕ) → Reach start (entered p)
Reach-entered p =
    next
      (next (next here (call p refl refl))
        (again p 0 (moved_self start.stage p (trying 0)) (ground arith) refl))
      (create p 0 (moved_self (go start p (trying 0)).stage p (creating 0)) refl refl)

-- The second is called at the same time, finds the time over at its first look, and removes the file.
abbrev overtaken : ℕ → ℕ → World
overtaken p q =
    let w1 = go (entered p) q (trying 0) in
    let w2 = record w1 { now = w1.now + 10000 } in
    let w3 = go w2 q forcing in with_lock (go w3 q (forced w3.now)) none

==-no : (p q : ℕ) → p ≢ q → (p == q) ≡ false
==-no p q n = elim (Bool-cases (p == q)) [ inl e ↦ absurd (n ((==_iff p q).0 e)) | inr e ↦ e ]

-- Another process is as before.
entered-idle : (p q : ℕ) → p ≢ q → (entered p).stage q ≡ idle
entered-idle p q n = rw (==-no q p (λ e. n (sym e))) refl

overtaken-first : (p q : ℕ) → p ≢ q → (overtaken p q).stage p ≡ inside 0
overtaken-first p q n = rw (==-no p q n, ==_refl p) refl

overtaken-second : (p q : ℕ) → (overtaken p q).stage q ≡ forced 10000
overtaken-second p q = rw (==_refl q) refl

Reach-overtaken : (p q : ℕ) → p ≢ q → Reach start (overtaken p q)
Reach-overtaken p q n =
    let w0 = entered p in
    let w1 = go w0 q (trying 0) in
    let w2 = record w1 { now = w1.now + 10000 } in
    let w3 = go w2 q forcing in
    next
      (next (next (next (Reach-entered p) (call q (entered-idle p q n) refl)) (tick 10000 refl))
        (expire q 0 (moved_self w0.stage q (trying 0)) (ground arith) refl))
      (force q (moved_self w2.stage q forcing) refl)

-- The lock does not exclude: of any two processes the second enters `fn` ten seconds after it was
-- called, while the first is still in it with a lock file of that age, a third of the age at which
-- a file counts as stale.
pub fresh_lock_overtaken :
    (p q : ℕ)
    → p ≢ q
    → (w : World) × Reach start w
      × (w.stage p ≡ inside 0)
      × (w.stage q ≡ forced 10000)
      × (w.now ≡ 10000)
      × (3 * w.now ≤ stale_after)
fresh_lock_overtaken p q n = (
  overtaken p q,
  Reach-overtaken p q n,
  overtaken-first p q n,
  overtaken-second p q,
  refl,
  ground arith,
)
