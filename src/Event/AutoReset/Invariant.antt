-- ===== src/Event/AutoReset/Invariant.antt =====
-- What holds in every state that threads reach.
use Prim.Native.Nat.{◌^◌}
use supplementary.Base.{
  ℕ, ◌+◌, ◌%◌, ◌≤◌, ◌<◌, ◌≡◌, ◌⊎◌, inl, inr, Bool, true, some, ◌==◌, if◌then◌else◌, arith,
  Bool-cases,
}
use supplementary.Event.AutoReset.{
  testing, blocked, woken, Event, make_event, set, wake, reset, enter, block, relock, pass,
  is_thread_waiting, increment, Reached, start, set_quietly, set_and_wake, resets, enters, blocks,
  wakes_up, relocks, passes,
}

abbrev pub as_number : Bool → ℕ
as_number b = if b then 1 else 0

module _ (initial : Bool) where
  pub record IsEvent (s n p : ℕ) (e : Event) : Type 0 where
    pub exclusive : (i : ℕ) → e.place i ≡ testing → e.holder ≡ some i
    pub passed : p + as_number e.flag ≤ s + as_number initial
    pub counted : e.waiting_thread ≡ (n + p) % 2 ^ 32
    pub heard :
        (i : ℕ)
        → e.place i ≡ blocked
        → e.flag ≡ true
        → (j : ℕ) × ((e.place j ≡ woken) ⊎ (e.place j ≡ testing))

  by_steps : {s n p : ℕ} {e : Event} → Reached initial s n p e → IsEvent s n p e
  unfolding make_event set wake reset enter block relock pass increment
  by_steps start = record {
    exclusive = λ i h. ground arith;
    passed = omega arith;
    counted = omega arith;
    heard = λ i h k. ground arith;
  }
  by_steps (set_quietly r free quiet) =
      let v = by_steps r in
      record {
        exclusive = v.exclusive;
        passed = ground (arith, v.passed);
        counted = v.counted;
        heard = λ i h k. absurd (quiet i h);
      }
  by_steps (set_and_wake i r free waits) =
      let v = by_steps r in
      record {
        exclusive = λ j h. ground (arith, v.exclusive j);
        passed = ground (arith, v.passed);
        counted = v.counted;
        heard = λ j h k. (i, inl (ground arith));
      }
  by_steps (resets r free) =
      let v = by_steps r in
      record {
        exclusive = v.exclusive;
        passed = ground (arith, v.passed);
        counted = v.counted;
        heard = λ i h k. ground (arith, k);
      }
  by_steps (enters i r free out) =
      let v = by_steps r in
      record {
        exclusive = λ j h. ground (arith, v.exclusive j, h, free);
        passed = v.passed;
        counted = omega (arith, v.counted);
        heard = λ k h on.
            let (j, q) = v.heard k (ground (arith, h)) on in
            (
              j,
              elim (Bool-cases (j == i)) [
                | inl m ↦ inr (ground (arith, m))
                | inr m ↦ ground (arith, m, q)
              ],
            );
      }
  by_steps (blocks i r tests off) =
      let v = by_steps r in
      record {
        exclusive = λ j h. ground (arith, v.exclusive j, v.exclusive i tests, h);
        passed = v.passed;
        counted = v.counted;
        heard = λ j h on. ground (arith, on, off);
      }
  by_steps (wakes_up i r waits) =
      let v = by_steps r in
      record {
        exclusive = λ j h. ground (arith, v.exclusive j, h);
        passed = v.passed;
        counted = v.counted;
        heard = λ j h on. (i, inl (ground arith));
      }
  by_steps (relocks i r free woke) =
      let v = by_steps r in
      record {
        exclusive = λ j h. ground (arith, v.exclusive j, h, free);
        passed = v.passed;
        counted = v.counted;
        heard = λ j h on. (i, inr (ground arith));
      }
  by_steps (passes i r tests on) =
      let v = by_steps r in
      record {
        exclusive = λ j h. ground (arith, v.exclusive j, v.exclusive i tests, h);
        passed = ground (arith, v.passed, on);
        counted = omega (arith, v.counted);
        heard = λ j h k. ground (arith, k);
      }

  -- In every state that threads reach by calls of set, reset and waitOne, with wake-ups at any time:
  -- a thread at the test of waitOne holds the mutex; no more threads have passed than there were
  -- calls of set, and one more if the event was set at first; the counter is the number of entries
  -- and exits together, modulo 2 ^ 32; while the event is set and a thread is blocked, some thread
  -- is on its way to pass; and from the first entry on, as long as entries and exits are fewer than
  -- 2 ^ 31 together, isThreadWaiting is true.
  pub Reached-IsEvent :
      {s n p : ℕ} {e : Event}
      → Reached initial s n p e
      → IsEvent s n p e × (0 < n → n + p < 2 ^ 31 → is_thread_waiting e ≡ true)
  unfolding is_thread_waiting
  Reached-IsEvent r = (by_steps r, λ h k. ground (arith, (by_steps r).counted, h, k))
