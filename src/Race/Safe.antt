-- ===== src/Race/Safe.antt =====
-- No lease outlives the wait for the drain, if the store of the flag is sequentially consistent.
use libvirtio.Base.{
  ℕ, zero, suc, ◌+◌, ◌-◌, ◌≡◌, refl, sym, ap, ◌∙◌, Bool, true, false, List, [], ◌∷◌, some, arith,
  All, get_elem?, set,
}
use libvirtio.Race.{Stage, Shared, Step, stored, initial, Reached}

-- What a task has added to the count, and whether it has or is to have a lease.
unfoldable weight : Stage → ℕ
weight Stage.idle = 0
weight Stage.tested = 0
weight Stage.counted = 1
weight Stage.retested = 1
weight Stage.holding = 1
weight Stage.refused = 1

unfoldable pub is_live : Stage → Bool
is_live Stage.idle = false
is_live Stage.tested = false
is_live Stage.counted = false
is_live Stage.retested = true
is_live Stage.holding = true
is_live Stage.refused = false

unfoldable pub total : List Stage → ℕ
unfolding weight
total [] = 0
total (t ∷ ts) = weight t + total ts

total-set :
    (ts : List Stage) (i : ℕ) (a b : Stage)
    → get_elem? ts i ≡ some a
    → total (set ts i b) + weight a ≡ total ts + weight b
unfolding total
total-set [] i a b e = cc
total-set (t ∷ ts) zero a b e = let same : t ≡ a = cc e in omega (arith, ap weight same)
total-set (t ∷ ts) (suc i) a b e = omega (arith, total-set ts i a b e)

All-set :
    (P : Stage → Type 0) (ts : List Stage) (i : ℕ) (b : Stage) → All P ts → P b → All P (set ts i b)
All-set P [] i b h p = tt
All-set P (t ∷ ts) zero b (ht, h) p = (p, h)
All-set P (t ∷ ts) (suc i) b (ht, h) p = (ht, All-set P ts i b h p)

dead_at :
    (ts : List Stage) (i : ℕ) (a : Stage)
    → All (λ t. is_live t ≡ false) ts
    → get_elem? ts i ≡ some a
    → is_live a ≡ false
dead_at [] i a h e = cc
dead_at (t ∷ ts) zero a (ht, h) e = let same : t ≡ a = cc e in ap is_live (sym same) ∙ ht
dead_at (t ∷ ts) (suc i) a (ht, h) e = dead_at ts i a h e

none_live : (ts : List Stage) → total ts ≡ 0 → All (λ t. is_live t ≡ false) ts
unfolding total weight is_live
none_live [] e = tt
none_live (Stage.idle ∷ ts) e = (refl, none_live ts (omega (arith, e)))
none_live (Stage.tested ∷ ts) e = (refl, none_live ts (omega (arith, e)))
none_live (Stage.counted ∷ ts) e = absurd (omega arith)
none_live (Stage.retested ∷ ts) e = absurd (omega arith)
none_live (Stage.holding ∷ ts) e = absurd (omega arith)
none_live (Stage.refused ∷ ts) e = absurd (omega arith)

-- The count is that of the tasks, and behind the drain none of them has or gets a lease.
pub record IsSafe (s : Shared) : Type 0 where
  pub counts : s.active ≡ total s.tasks
  pub revoked_lem : s.drained ≡ true → s.revoked ≡ true
  pub dead : s.drained ≡ true → All (λ t. is_live t ≡ false) s.tasks

all_idle_total : (n : ℕ) → total (initial n).tasks ≡ 0
unfolding total weight
all_idle_total zero = refl
all_idle_total (suc n) = omega (arith, all_idle_total n)

initial-IsSafe : (n : ℕ) → IsSafe (initial n)
initial-IsSafe n = record { counts = sym (all_idle_total n); revoked_lem = λ e. cc; dead = λ e. cc }

-- A task that moves on without a lease in sight, or while none is barred.
module _ (s : Shared) (i : ℕ) (a b : Stage) (e : get_elem? s.tasks i ≡ some a)
    (safe : IsSafe s) where
  moved :
      (n : ℕ)
      → n + weight a ≡ s.active + weight b
      → (s.drained ≡ true → is_live b ≡ false)
      → IsSafe (record s { active = n; tasks = set s.tasks i b })
  moved n k dead_b = record {
    counts = omega (arith, k, safe.counts, total-set s.tasks i a b e);
    revoked_lem = safe.revoked_lem;
    dead = λ d. All-set (λ t. is_live t ≡ false) s.tasks i b (safe.dead d) (dead_b d);
  }

Step-IsSafe : {s t : Shared} → Step true s t → IsSafe s → IsSafe t
unfolding stored weight is_live
Step-IsSafe (Step.test s i e r) h =
    moved s i Stage.idle Stage.tested e h s.active (omega arith) (λ _. refl)
Step-IsSafe (Step.increment s i e) h =
    moved s i Stage.tested Stage.counted e h (s.active + 1) (omega arith) (λ _. refl)
Step-IsSafe (Step.retest s i e r) h =
    moved s i Stage.counted Stage.retested e h s.active (omega arith)
      (λ d. let wrong = sym r ∙ h.revoked_lem d in cc)
Step-IsSafe (Step.refuse s i e r) h =
    moved s i Stage.counted Stage.refused e h s.active (omega arith) (λ _. refl)
Step-IsSafe (Step.translated s i e) h =
    moved s i Stage.retested Stage.holding e h s.active (omega arith)
      (λ d. dead_at s.tasks i Stage.retested (h.dead d) e)
Step-IsSafe (Step.unmapped s i e) h =
    moved s i Stage.retested Stage.refused e h s.active (omega arith) (λ _. refl)
Step-IsSafe (Step.withdraw s i e) h =
    moved s i Stage.refused Stage.idle e h (s.active - 1)
      (omega (arith, h.counts, total-set s.tasks i Stage.refused Stage.idle e)) (λ _. refl)
Step-IsSafe (Step.release s i e) h =
    moved s i Stage.holding Stage.idle e h (s.active - 1)
      (omega (arith, h.counts, total-set s.tasks i Stage.holding Stage.idle e)) (λ _. refl)
Step-IsSafe (Step.revoke s) h = record {
  counts = h.counts;
  revoked_lem = h.revoked_lem;
  dead = h.dead;
}
Step-IsSafe (Step.appear s e) h = record {
  counts = h.counts;
  revoked_lem = λ _. refl;
  dead = h.dead;
}
Step-IsSafe (Step.drain s r e) h = record {
  counts = h.counts;
  revoked_lem = λ _. r;
  dead = λ _. none_live s.tasks (sym h.counts ∙ e);
}

-- Of any number of tasks that take and drop leases while the monitor revokes the memory and waits
-- for the drain, in any interleaving of their atomic steps, the count of leases is the number of
-- tasks between their increment and their decrement, and once `wait_for_drain` has returned the
-- memory is revoked and no task has a lease or will get one: if the store of `revoke` is visible to
-- all tasks before the count is read.
pub Reached-IsSafe : {n : ℕ} {s : Shared} → Reached true n s → IsSafe s
Reached-IsSafe {n} Reached.start = initial-IsSafe n
Reached-IsSafe (Reached.then_step r st) = Step-IsSafe st (Reached-IsSafe r)
