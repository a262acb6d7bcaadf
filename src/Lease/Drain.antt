-- ===== src/Lease/Drain.antt =====
-- `wait_for_drain` of src/dma.rs: when it returns.
use libvirtio.Base.{
  ℕ, zero, suc, ◌≤◌, ◌<◌, ◌≡◌, ◌≢◌, inl, inr, refl, true, false, Bool-cases, List, [], ◌∷◌, length,
  take, ◌==◌, arith,
}
use libvirtio.Outcome.{Outcome, ok, err, panic, hang}
use libvirtio.State.{continue_with}
use libvirtio.Lease.{Host, wait_for_drain}

-- The host after what the others do, one after the other.
abbrev pub after : List (Host → Host) → Host → Host
after [] h = h
after (others ∷ later) h = after later (others h)

-- A lease is live at each of the first looks at the count.
abbrev pub StaysActive : List (Host → Host) → Host → ℕ → Type 0
StaysActive others h k = (j : ℕ) → j < k → (after (take j others) h).active ≢ 0

-- It returns at the first look at which no lease is live, and never if there is no such look.
abbrev pub Drains : List (Host → Host) → Host → Outcome (Unit {0}) × Host → Type 0
Drains others h (ok u, g) =
    (k : ℕ) × (k ≤ length others)
    × (g ≡ after (take k others) h)
    × (g.active ≡ 0)
    × StaysActive others h k
Drains others h (err e, g) = ⊥
Drains others h (panic, g) = ⊥
Drains others h (hang, g) = StaysActive others h (suc (length others))

module _ (h : Host) where
  now : (others : List (Host → Host)) → (h.active == 0) ≡ true → Drains others h (ok tt, h)
  now others e = (0, omega arith, refl, ground (arith, e), λ j lt. absurd (omega arith))

  module _ (busy : (h.active == 0) ≡ false) where
    still_active :
        (o : Host → Host) (others : List (Host → Host)) (k : ℕ)
        → StaysActive others (o h) k
        → StaysActive (o ∷ others) h (suc k)
    still_active o others k stays zero lt = ground (arith, busy)
    still_active o others k stays (suc j) lt = stays j (omega arith)

    later :
        (o : Host → Host) (others : List (Host → Host)) (r : Outcome (Unit {0}) × Host)
        → Drains others (o h) r
        → Drains (o ∷ others) h r
    later o others (ok u, g) (k, le, e, none_left, stays) =
        (suc k, omega arith, e, none_left, still_active o others k stays)
    later o others (err e, g) d = absurd d
    later o others (panic, g) d = absurd d
    later o others (hang, g) stays = still_active o others (suc (length others)) stays

    never : StaysActive [] h 1
    never zero lt = ground (arith, busy)
    never (suc j) lt = absurd (omega arith)

pub wait_for_drain-Drains :
    (others : List (Host → Host)) (h : Host) → Drains others h (wait_for_drain others h)
unfolding wait_for_drain continue_with
wait_for_drain-Drains [] h = elim (Bool-cases (h.active == 0)) [
  | inl e ↦ rw e (now h [] e)
  | inr e ↦ rw e (never h e)
]
wait_for_drain-Drains (o ∷ others) h = elim (Bool-cases (h.active == 0)) [
  | inl e ↦ rw e (now h (o ∷ others) e)
  | inr e ↦ rw e (later h e o others _ (wait_for_drain-Drains others (o h)))
]
