-- ===== src/Race.antt =====
-- src/dma.rs: `lease`, `revoke` and `wait_for_drain` as tasks that run at once. Each atomic
-- operation is a step. `revoke` stores the flag with release ordering, so that the store may
-- still wait in the processor's buffer when `wait_for_drain`, which comes after it, loads the
-- count: a step of its own makes the flag visible to the tasks.
pub mod Safe
use libvirtio.Base.{
  ℕ, zero, suc, ◌+◌, ◌-◌, ◌≡◌, Bool, true, false, List, [], ◌∷◌, some, get_elem?, set,
}

-- Where a task stands in `lease`, in the order of the code: before the first test, behind it,
-- behind the increment, behind the second test, with a lease, and about to give its count back.
pub data Stage : Type 0 where
  idle tested counted retested holding refused : Stage

-- `revoking` is the flag as the monitor has stored it, `revoked` as the tasks load it. `drained`
-- tells that `wait_for_drain` has returned.
pub record Shared : Type 0 where
  pub revoking : Bool
  pub revoked : Bool
  pub active : ℕ
  pub drained : Bool
  pub tasks : List Stage

-- What `wait_for_drain` waits for besides the count: with the orderings of the source that the
-- flag has been stored, with a sequentially consistent store that it is visible.
unfoldable pub stored : Bool → Shared → Bool
stored true s = s.revoked
stored false s = s.revoking

abbrev pub move : Shared → ℕ → Stage → Shared
move s i stage = record s { tasks = set s.tasks i stage }

-- One atomic step; `ordered` tells whether the store of the flag is sequentially consistent.
pub data Step (ordered : Bool) : Shared → Shared → Type 0 where
  test :
      (s : Shared) (i : ℕ)
      → get_elem? s.tasks i ≡ some Stage.idle
      → s.revoked ≡ false
      → Step ordered s (move s i Stage.tested)
  increment :
      (s : Shared) (i : ℕ)
      → get_elem? s.tasks i ≡ some Stage.tested
      → Step ordered s (record (move s i Stage.counted) { active = s.active + 1 })
  retest :
      (s : Shared) (i : ℕ)
      → get_elem? s.tasks i ≡ some Stage.counted
      → s.revoked ≡ false
      → Step ordered s (move s i Stage.retested)
  refuse :
      (s : Shared) (i : ℕ)
      → get_elem? s.tasks i ≡ some Stage.counted
      → s.revoked ≡ true
      → Step ordered s (move s i Stage.refused)
  translated :
      (s : Shared) (i : ℕ)
      → get_elem? s.tasks i ≡ some Stage.retested
      → Step ordered s (move s i Stage.holding)
  unmapped :
      (s : Shared) (i : ℕ)
      → get_elem? s.tasks i ≡ some Stage.retested
      → Step ordered s (move s i Stage.refused)
  withdraw :
      (s : Shared) (i : ℕ)
      → get_elem? s.tasks i ≡ some Stage.refused
      → Step ordered s (record (move s i Stage.idle) { active = s.active - 1 })
  release :
      (s : Shared) (i : ℕ)
      → get_elem? s.tasks i ≡ some Stage.holding
      → Step ordered s (record (move s i Stage.idle) { active = s.active - 1 })
  revoke : (s : Shared) → Step ordered s (record s { revoking = true })
  appear : (s : Shared) → s.revoking ≡ true → Step ordered s (record s { revoked = true })
  drain :
      (s : Shared)
      → stored ordered s ≡ true
      → s.active ≡ 0
      → Step ordered s (record s { drained = true })

-- The states that are reached from tasks that are all idle on memory that is not revoked.
abbrev all_idle : ℕ → List Stage
all_idle zero = []
all_idle (suc n) = Stage.idle ∷ all_idle n

abbrev pub initial : ℕ → Shared
initial n = record {
  revoking = false;
  revoked = false;
  active = 0;
  drained = false;
  tasks = all_idle n;
}

pub data Reached (ordered : Bool) (n : ℕ) : Shared → Type 0 where
  start : Reached ordered n (initial n)
  then_step : {s t : Shared} → Reached ordered n s → Step ordered s t → Reached ordered n t
