-- ===== src/Tests/Race.antt =====
-- Two runs of a task that takes a lease beside a monitor that revokes the memory.
use libvirtio.Base.{refl, true, false, [], ◌∷◌}
use libvirtio.Race.{Stage, Shared, Step, stored, initial, Reached}
use libvirtio.Race.Safe.{IsSafe, Reached-IsSafe}

abbrev refused_late : Shared
refused_late = record {
  revoking = true;
  revoked = true;
  active = 1;
  drained = true;
  tasks = Stage.refused ∷ [];
}

-- The task passes its first test, then the memory is revoked and drained, then it goes on.
late : Reached true 1 refused_late
unfolding stored
late =
    Reached.then_step
      (Reached.then_step
        (Reached.then_step
          (Reached.then_step
            (Reached.then_step (Reached.then_step Reached.start (Step.test (initial 1) 0 refl refl))
              (Step.revoke _))
            (Step.appear _ refl))
          (Step.drain _ refl refl))
        (Step.increment _ 0 refl))
      (Step.refuse _ 0 refl refl)

Reached-IsSafe_example : IsSafe refused_late
Reached-IsSafe_example = Reached-IsSafe late

-- With the orderings of the source the store of the flag may appear to the task only after the
-- monitor has read the count: the task has a lease on memory that counts as drained.
abbrev leased_late : Shared
leased_late = record {
  revoking = true;
  revoked = false;
  active = 1;
  drained = true;
  tasks = Stage.holding ∷ [];
}

unordered : Reached false 1 leased_late
unfolding stored
unordered =
    Reached.then_step
      (Reached.then_step
        (Reached.then_step
          (Reached.then_step
            (Reached.then_step (Reached.then_step Reached.start (Step.revoke (initial 1)))
              (Step.drain _ refl refl))
            (Step.test _ 0 refl refl))
          (Step.increment _ 0 refl))
        (Step.retest _ 0 refl refl))
      (Step.translated _ 0 refl)
