-- ===== src/Process/Executable/Manual.antt =====
-- Processes that were started by hand.
use supplementary.Base.{
  ℕ, ◌≡◌, ap, Bool, true, false, not, ◌&&◌, ◌||◌, Option, none, some, List, [], ◌∷◌, if◌then◌else◌,
  arith, if_both,
}
use supplementary.Process.Executable.{
  CommandLine, shouldnt_run, manual_started, Executable, Action, kill_queued_processes, erase_own,
  update_stats, start_publishing_logs, adopt, keep_or_kill, update_running, update_stopped,
  update_queued, update, same_params, is_manual_started,
}
use supplementary.Process.Executable.Update.{update_stats_kept}

module _ (command_line : ℕ → CommandLine) (has_params : ℕ → Bool) where
  -- A manually started process: the managed one is kept, whatever its parameters.
  keep_manual :
      (m : ℕ) (rest : List ℕ) (e : Executable)
      → e.managed_pid ≡ some m
      → e.desired_run_state ≡ manual_started
      → (keep_or_kill command_line has_params m rest e).1.managed_pid ≡ some m
  unfolding keep_or_kill kill_queued_processes start_publishing_logs
  keep_manual m rest e own manual =
      let f = update_stats command_line has_params m e in
      let (_, same, state) = update_stats_kept command_line has_params m e in
      let g : Executable =
        (if not f.should_publish && f.publishing then record f { publishing = false } else f) in
      let h : Executable =
        (if g.should_publish && not g.publishing then start_publishing_logs g else g) in
      let g_managed : g.managed_pid ≡ some m = ground (arith, same, own) in
      let g_state : g.desired_run_state ≡ manual_started = ground (arith, state, manual) in
      let h_managed : h.managed_pid ≡ some m = ground (arith, g_managed) in
      let is_manual : is_manual_started g.desired_run_state ≡ true = ap is_manual_started g_state in
      if_both (λ (r : List Action × Executable). r.1.managed_pid ≡ some m)
        (same_params g.desired_params g.running_params || is_manual_started g.desired_run_state) _ _
        (λ keep. h_managed) (λ wrong. ground (arith, wrong, is_manual))

  -- Where no process should run and none is managed, the first of the queued processes is taken as
  -- started by hand: a next update that finds it again keeps it as the managed one.
  pub manual_start_kept :
      (waited : Bool) (forked : Option ℕ) (e : Executable) (p : ℕ) (ps : List ℕ) (r : ℕ)
      (rs rest : List ℕ)
      → e.desired_run_state ≡ shouldnt_run
      → e.managed_pid ≡ none
      → e.queued_pids ≡ p ∷ ps
      → erase_own p (r ∷ rs) ≡ some rest
      → (first : List Action × Executable) × (second : List Action × Executable) × (update
            command_line has_params waited forked e
          ≡ some first)
        × (update command_line has_params waited forked (record first.1 { queued_pids = r ∷ rs })
            ≡ some second)
        × (second.1.managed_pid ≡ some p)
  unfolding update update_queued update_stopped update_running adopt kill_queued_processes
  manual_start_kept waited forked e p ps r rs rest stopped nothing queued found =
      let first =
        adopt command_line has_params p ps (record e { desired_run_state = manual_started }) in
      let next : Executable = record first.1 { queued_pids = r ∷ rs } in
      let (_, own, state) =
        update_stats_kept command_line has_params p (record e {
          desired_run_state = manual_started;
          managed_pid = some p;
          queued_pids = [];
        }) in
      (
        first,
        keep_or_kill command_line has_params p rest next,
        ground (arith, stopped, nothing, queued),
        ground (arith, own, state, found),
        keep_manual p rest next own state,
      )
