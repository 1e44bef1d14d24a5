-- ===== src/Process/Executable/Update.antt =====
-- What update() does to the processes that are queued.
use supplementary.Base.{
  ℕ, suc, ◌+◌, ◌≡◌, ◌==◌, refl, sym, ◌∙◌, ap, subst, ◌⊎◌, inl, inr, Bool, false, not, ◌&&◌, ◌||◌,
  Option, none, some, List, [], ◌∷◌, if◌then◌else◌, arith, Bool-cases, Option-cases, if_both,
  option_both,
}
use supplementary.Process.Executable.{
  CommandLine, too_short, unmatched, matched, RunState, should_run, shouldnt_run, manual_started,
  Executable, Action, kills, starts, clear, kill_all, kill_queued_processes, erase_own,
  read_proc_params, update_stats, start_publishing_logs, adopt, keep_or_kill, update_running,
  update_stopped, update_queued, update, same_params, is_manual_started,
}

-- How often a process is queued, and how often it gets a signal.
abbrev pub count : ℕ → List ℕ → ℕ
count p [] = 0
count p (q ∷ qs) = if p == q then suc (count p qs) else count p qs

abbrev pub killed : ℕ → List Action → ℕ
killed p [] = 0
killed p (kills q ∷ actions) = if p == q then suc (killed p actions) else killed p actions
killed p (starts q ∷ actions) = killed p actions

abbrev pub managed : ℕ → Option ℕ → ℕ
managed p none = 0
managed p (some m) = if p == m then 1 else 0

killed-kill_all : (p : ℕ) (qs : List ℕ) → killed p (kill_all qs) ≡ count p qs
unfolding kill_all
killed-kill_all p [] = refl
killed-kill_all p (q ∷ qs) = ground (arith, killed-kill_all p qs)

-- Every queued process is killed as often as it is queued, but for the managed one, once.
pub record IsUpdated (q : List ℕ) (actions : List Action) (e : Executable) : Type 0 where
  pub emptied : e.queued_pids ≡ []
  pub accounted : (p : ℕ) → count p q ≡ killed p actions + managed p e.managed_pid

abbrev Updated : List ℕ → List Action × Executable → Type 0
Updated q r = IsUpdated q r.0 r.1

count-erase_own :
    (p m : ℕ) (qs rest : List ℕ)
    → erase_own m qs ≡ some rest
    → count p qs ≡ count p rest + managed p (some m)
unfolding erase_own
count-erase_own p m [] rest h = ground (arith, h)
count-erase_own p m (q ∷ qs) rest h = elim (Bool-cases (m == q)) [
  | inl own ↦ let rest_is : rest ≡ qs = ground (arith, h, own) in ground (arith, own, rest_is)
  | inr other ↦ elim (Option-cases (erase_own m qs)) [
    | inl e ↦ ground (arith, h, other, e)
    | inr (r, e) ↦
        let rest_is : rest ≡ q ∷ r = ground (arith, h, other, e) in
        ground (arith, rest_is, count-erase_own p m qs r e)
  ]
]

CommandLine-cases :
    (c : CommandLine) → (c ≡ too_short) ⊎ ((c ≡ unmatched) ⊎ ((s : ℕ) × (c ≡ matched s)))
CommandLine-cases too_short = inl refl
CommandLine-cases unmatched = inr (inl refl)
CommandLine-cases (matched s) = inr (inr (s, refl))

module _ (command_line : ℕ → CommandLine) (has_params : ℕ → Bool) where
  pub update_stats_kept :
      (pid : ℕ) (e : Executable)
      → ((update_stats command_line has_params pid e).queued_pids ≡ e.queued_pids)
        × ((update_stats command_line has_params pid e).managed_pid ≡ e.managed_pid)
        × ((update_stats command_line has_params pid e).desired_run_state ≡ e.desired_run_state)
  unfolding update_stats read_proc_params
  update_stats_kept pid e = elim (Bool-cases e.need_to_read_params) [
    | inr off ↦ ground (arith, off)
    | inl on ↦ elim (CommandLine-cases (command_line pid)) [
      | inl short ↦ ground (arith, on, short)
      | inr (inl other) ↦ ground (arith, on, other)
      | inr (inr (s, m)) ↦ ground (arith, on, m)
    ]
  ]

  adopt-Updated :
      (p : ℕ) (ps : List ℕ) (e : Executable)
      → Updated (p ∷ ps) (adopt command_line has_params p ps e)
  unfolding adopt kill_queued_processes
  adopt-Updated p ps e =
      let f : Executable = record e { managed_pid = some p; queued_pids = [] } in
      let (emptied, same, _) = update_stats_kept p f in
      record { emptied = emptied; accounted = λ q. ground (arith, same, killed-kill_all q ps) }

  -- With the managed process among the queued ones, the others are killed, or all of them.
  keep_or_kill-Updated :
      (m : ℕ) (rest : List ℕ) (e : Executable)
      → e.managed_pid ≡ some m
      → ((p : ℕ) → count p e.queued_pids ≡ count p rest + managed p (some m))
      → Updated e.queued_pids (keep_or_kill command_line has_params m rest e)
  unfolding keep_or_kill kill_queued_processes clear start_publishing_logs
  keep_or_kill-Updated m rest e own counts =
      let f = update_stats command_line has_params m e in
      let (queued, same, _) = update_stats_kept m e in
      let g : Executable =
        (if not f.should_publish && f.publishing then record f { publishing = false } else f) in
      let h : Executable =
        (if g.should_publish && not g.publishing then start_publishing_logs g else g) in
      let g_managed : g.managed_pid ≡ some m = ground (arith, same, own) in
      let g_queued : g.queued_pids ≡ e.queued_pids = ground (arith, queued) in
      let h_managed : h.managed_pid ≡ some m = ground (arith, g_managed) in
      if_both (Updated e.queued_pids)
        (same_params g.desired_params g.running_params || is_manual_started g.desired_run_state) _ _
        (λ keep. record {
          emptied = refl;
          accounted = λ p.
              counts p
              ∙ ap (λ n. n + managed p (some m)) (sym (killed-kill_all p rest))
              ∙ ap (λ x. killed p (kill_all rest) + managed p x) (sym h_managed);
        })
        (λ wrong. record {
          emptied = refl;
          accounted = λ p.
              let all : killed p (kill_all g.queued_pids) ≡ count p e.queued_pids =
                killed-kill_all p g.queued_pids ∙ ap (count p) g_queued in
              omega (arith, all);
        })

  update_running-Updated :
      (p : ℕ) (ps : List ℕ) (e : Executable)
      → e.queued_pids ≡ p ∷ ps
      → Updated (p ∷ ps) (update_running command_line has_params p ps e)
  unfolding update_running
  update_running-Updated p ps e h =
      option_both (Updated (p ∷ ps)) e.managed_pid _ _ (λ none_managed. adopt-Updated p ps e)
        (λ m own.
          option_both (Updated (p ∷ ps)) (erase_own m (p ∷ ps)) _ _ (λ gone. adopt-Updated p ps e)
            (λ rest found.
              subst (λ q. Updated q (keep_or_kill command_line has_params m rest e)) h
                (keep_or_kill-Updated m rest e own
                  (λ q. ap (count q) h ∙ count-erase_own q m (p ∷ ps) rest found))))

  update_stopped-Updated :
      (p : ℕ) (ps : List ℕ) (e : Executable)
      → e.queued_pids ≡ p ∷ ps
      → Updated (p ∷ ps) (update_stopped command_line has_params p ps e)
  unfolding update_stopped kill_queued_processes clear
  update_stopped-Updated p ps e h =
      option_both (Updated (p ∷ ps)) e.managed_pid _ _
        (λ none_managed. adopt-Updated p ps (record e { desired_run_state = manual_started }))
        (λ m own. record {
          emptied = refl;
          accounted = λ q.
              let all : killed q (kill_all e.queued_pids) ≡ count q (p ∷ ps) =
                killed-kill_all q e.queued_pids ∙ ap (count q) h in
              omega (arith, all);
        })

  update_queued-Updated :
      (r : RunState) (p : ℕ) (ps : List ℕ) (e : Executable)
      → e.queued_pids ≡ p ∷ ps
      → Updated (p ∷ ps) (update_queued command_line has_params r p ps e)
  unfolding update_queued
  update_queued-Updated shouldnt_run p ps e h = update_stopped-Updated p ps e h
  update_queued-Updated should_run p ps e h = update_running-Updated p ps e h
  update_queued-Updated manual_started p ps e h = update_running-Updated p ps e h

  -- With processes queued, update() throws nothing and empties the queue, and each process in it gets
  -- a signal as often as it is queued, but for the one that is then managed, which is spared once.
  pub update-IsUpdated :
      (waited : Bool) (forked : Option ℕ) (e : Executable) (p : ℕ) (ps : List ℕ)
      → e.queued_pids ≡ p ∷ ps
      → (actions : List Action) × (f : Executable) × (update command_line has_params waited forked e
          ≡ some (actions, f))
        × IsUpdated (p ∷ ps) actions f
  unfolding update
  update-IsUpdated waited forked e p ps h =
      let (actions, f) = update_queued command_line has_params e.desired_run_state p ps e in
      (actions, f, ground (arith, h), update_queued-Updated e.desired_run_state p ps e h)
