-- ===== src/Lock.antt =====
-- `withPlanningLock` of .opencode/get-shit-done/bin/lib/core.cjs: a lock by the exclusive creation
-- of a file. Processes are numbered; a step is one system call of one process, or the clock. Times
-- are milliseconds.
pub mod Exclusion
mod Tests
use mikmongo.Base.{ℕ, ◌+◌, ◌≤◌, ◌<◌, ◌≡◌, Option, none, some, ◌==◌, if◌then◌else◌}

abbrev pub lock_timeout : ℕ
lock_timeout = 10000

abbrev pub stale_after : ℕ
stale_after = 30000

-- Where a process stands: outside; at the condition of the loop, called at `start`; about to create
-- the file; with the file there, about to look at it; with a stale file seen, about to remove it; in `fn` with the file
-- created at `since`; behind `fn`, about to remove the file; past the time limit, about to remove
-- the file; in `fn` with no file of its own.
pub data Stage : Type 0 where
  idle : Stage
  trying creating checking breaking : (start : ℕ) → Stage
  inside : (since : ℕ) → Stage
  leaving forcing : Stage
  forced : (since : ℕ) → Stage

-- The clock, the time of modification of the lock file if it is there, and the processes.
pub record World : Type 0 where
  pub now : ℕ
  pub lock : Option ℕ
  pub stage : ℕ → Stage

-- Process `p` goes on to stage `s`.
abbrev pub moved : (ℕ → Stage) → ℕ → Stage → ℕ → Stage
moved stage p s q = if q == p then s else stage q

abbrev pub go : World → ℕ → Stage → World
go w p s = record w { stage = moved w.stage p s }

abbrev pub with_lock : World → Option ℕ → World
with_lock w l = record w { lock = l }

-- One step: the clock, or a system call of `withPlanningLock` in process `p`.
pub data Step (w u : World) : Type 0 where
  -- time passes
  tick : (n : ℕ) → u ≡ record w { now = w.now + n } → Step w u
  -- `const start = Date.now()`
  call : (p : ℕ) → w.stage p ≡ idle → u ≡ go w p (trying w.now) → Step w u
  -- the condition of the loop holds
  again :
      (p start : ℕ)
      → w.stage p ≡ trying start
      → w.now < start + lock_timeout
      → u ≡ go w p (creating start)
      → Step w u
  -- `fs.writeFileSync(lockPath, …, { flag: 'wx' })` creates the file
  create :
      (p start : ℕ)
      → w.stage p ≡ creating start
      → w.lock ≡ none
      → u ≡ with_lock (go w p (inside w.now)) (some w.now)
      → Step w u
  -- … or fails with `EEXIST`
  exists :
      (p start m : ℕ)
      → w.stage p ≡ creating start
      → w.lock ≡ some m
      → u ≡ go w p (checking start)
      → Step w u
  -- the condition fails
  expire :
      (p start : ℕ)
      → w.stage p ≡ trying start
      → start + lock_timeout ≤ w.now
      → u ≡ go w p forcing
      → Step w u
  -- `fs.statSync(lockPath)` fails, the file is gone
  look_gone :
      (p start : ℕ)
      → w.stage p ≡ checking start
      → w.lock ≡ none
      → u ≡ go w p (trying start)
      → Step w u
  -- the file is older than the limit
  look_stale :
      (p start m : ℕ)
      → w.stage p ≡ checking start
      → w.lock ≡ some m
      → m + stale_after < w.now
      → u ≡ go w p (breaking start)
      → Step w u
  -- it is not: sleep, and try again
  look_fresh :
      (p start m : ℕ)
      → w.stage p ≡ checking start
      → w.lock ≡ some m
      → w.now ≤ m + stale_after
      → u ≡ go w p (trying start)
      → Step w u
  -- `fs.unlinkSync(lockPath); continue`, whatever file is there by now
  break_stale :
      (p start : ℕ)
      → w.stage p ≡ breaking start
      → u ≡ with_lock (go w p (trying start)) none
      → Step w u
  -- `fn()` returns or throws
  finish : (p since : ℕ) → w.stage p ≡ inside since → u ≡ go w p leaving → Step w u
  -- the `finally` block
  release : (p : ℕ) → w.stage p ≡ leaving → u ≡ with_lock (go w p idle) none → Step w u
  -- behind the loop: `fs.unlinkSync(lockPath)`, and `fn()` begins
  force : (p : ℕ) → w.stage p ≡ forcing → u ≡ with_lock (go w p (forced w.now)) none → Step w u
  -- … and ends, with nothing removed
  forced_finish : (p since : ℕ) → w.stage p ≡ forced since → u ≡ go w p idle → Step w u

pub data Reach (w : World) : World → Type 0 where
  here : Reach w w
  next : {u v : World} → Reach w u → Step u v → Reach w v

-- No process has been called.
abbrev pub start : World
start = record { now = 0; lock = none; stage = λ p. idle }
