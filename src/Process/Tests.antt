-- ===== src/Process/Tests.antt =====
-- Three processes of an executable are found, of which one is managed.
use supplementary.Base.{◌≡◌, refl, true, false, none, some, List, [], ◌∷◌}
use supplementary.Process.Executable.{
  unmatched, Executable, Action, should_run, shouldnt_run, kills, update, update_queued,
  update_running, erase_own, keep_or_kill, update_stats, kill_queued_processes, kill_all,
}
use supplementary.Process.Executable.Manual.{manual_start_kept}
use supplementary.Process.Executable.Update.{IsUpdated, update-IsUpdated}

abbrev running : Executable
running = record {
  desired_run_state = should_run;
  desired_params = some 1;
  running_params = some 1;
  managed_pid = some 20;
  need_to_read_params = false;
  publishing = false;
  should_publish = false;
  queued_pids = 10 ∷ 20 ∷ 30 ∷ [];
}

others_killed :
    update (λ _. unmatched) (λ _. true) true none running
    ≡ some (kills 10 ∷ kills 30 ∷ [], record running { queued_pids = [] })
unfolding update update_queued update_running erase_own keep_or_kill update_stats
    kill_queued_processes kill_all
others_killed = refl

update-IsUpdated_example :
    (actions : List Action) × (f : Executable) × (update
        (λ _. unmatched)
        (λ _. true)
        true
        none
        running
      ≡ some (actions, f))
    × IsUpdated (10 ∷ 20 ∷ 30 ∷ []) actions f
update-IsUpdated_example =
    update-IsUpdated (λ _. unmatched) (λ _. true) true none running 10 (20 ∷ 30 ∷ []) refl

-- Nothing should run, and two processes are found; at the next update the first is found again.
abbrev started_by_hand : Executable
started_by_hand = record running {
  desired_run_state = shouldnt_run;
  managed_pid = none;
  queued_pids = 10 ∷ 20 ∷ [];
}

manual_start_kept_example :
    (first : List Action × Executable) × (second : List Action × Executable) × (update
        (λ _. unmatched)
        (λ _. true)
        true
        none
        started_by_hand
      ≡ some first)
    × (update (λ _. unmatched) (λ _. true) true none (record first.1 { queued_pids = 40 ∷ 10 ∷ [] })
        ≡ some second)
    × (second.1.managed_pid ≡ some 10)
unfolding erase_own
manual_start_kept_example =
    manual_start_kept (λ _. unmatched) (λ _. true) true none started_by_hand 10 (20 ∷ []) 40
      (10 ∷ []) (40 ∷ []) refl refl refl refl
