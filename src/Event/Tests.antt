-- ===== src/Event/Tests.antt =====
-- Runs of the event and the triggers.
use Prim.Native.Nat.{◌^◌}
use supplementary.Base.{◌<◌, ◌+◌, ◌≡◌, refl, true, false, List, [], ◌∷◌}
use supplementary.Event.Trigger.{
  is_notify_called, notify_all, register_cv, set_notify_called, assign, find,
}
use supplementary.Event.Trigger.Registry.{
  Call, registering, setting, notifying, perform, perform_all, IsOrdered, registry_correct,
}
use supplementary.Event.AutoReset.{
  Event, increment, Reached, make_event, enter, block, wake, set, relock, pass, is_thread_waiting,
  start, enters, blocks, set_and_wake, relocks, passes, outside,
}
use supplementary.Event.AutoReset.Invariant.{IsEvent, Reached-IsEvent}

-- One thread waits, the event is set, and the thread passes.
abbrev one_passed : Event
one_passed = pass 7 (relock 7 (wake 7 (set (block 7 (enter 7 (make_event false))))))

one_passed-Reached : Reached false 1 1 1 one_passed
unfolding pass relock wake set block enter make_event increment
one_passed-Reached =
    passes 7
      (relocks 7 (set_and_wake 7 (blocks 7 (enters 7 start refl refl) refl refl) refl refl) refl
        refl)
      refl refl

one_passed_outside : one_passed.place 7 ≡ outside
unfolding pass
one_passed_outside = refl

Reached-IsEvent_example :
    IsEvent false 1 1 1 one_passed × (0 < 1 → 1 + 1 < 2 ^ 31 → is_thread_waiting one_passed ≡ true)
Reached-IsEvent_example = Reached-IsEvent false one_passed-Reached

abbrev calls : List Call
calls = registering 4 ∷ registering 2 ∷ notifying true ∷ registering 4 ∷ setting true 3 ∷ []

-- 2 was notified, 4 was registered again, and 3 is not registered.
registry_correct_example :
    (is_notify_called 2 (perform_all calls []) ≡ true)
    × IsOrdered (perform_all calls [])
    × ((notify_all false (perform_all calls [])).0
        ≡ record { variable = 2; all = false } ∷ record { variable = 4; all = false } ∷ [])
unfolding perform register_cv set_notify_called notify_all assign find
registry_correct_example = registry_correct calls 2 false
