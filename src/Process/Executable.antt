-- ===== src/Process/Executable.antt =====
-- process_manager/src/ManagedExecutable.cpp: update() kills, adopts and starts processes, and
-- changeDesiredState() says what is wanted. A pid or a parameter set of -1 is `none`. Statistics, log
-- files and the threads that publish them are left out, but for the flags.
pub mod Manual
pub mod Update
use supplementary.Base.{
  ℕ, ◌≡◌, ◌==◌, Bool, true, false, ◌&&◌, ◌||◌, not, Option, none, some, List, [], ◌∷◌, ◌++◌,
  if◌then◌else◌,
}

pub data RunState : Type 0 where
  should_run shouldnt_run manual_started : RunState

pub record Executable : Type 0 where
  pub desired_run_state : RunState
  pub desired_params : Option ℕ
  pub running_params : Option ℕ
  pub managed_pid : Option ℕ
  pub need_to_read_params : Bool
  pub publishing : Bool
  pub should_publish : Bool
  pub queued_pids : List ℕ

-- What readProcParams finds on the command line of a process: too few words, no parameter set of
-- metaExec, or the first one that it matches.
pub data CommandLine : Type 0 where
  too_short unmatched : CommandLine
  matched : ℕ → CommandLine

-- What an update asks of the operating system: SIGTERM for a process, and a fork.
pub data Action : Type 0 where
  kills : ℕ → Action
  starts : ℕ → Action

abbrev pub same_params : Option ℕ → Option ℕ → Bool
same_params none none = true
same_params (some a) (some b) = a == b
same_params _ _ = false

abbrev pub is_some : Option ℕ → Bool
is_some none = false
is_some (some a) = true

abbrev pub is_manual_started : RunState → Bool
is_manual_started manual_started = true
is_manual_started _ = false

unfoldable pub queue_for_update : ℕ → Executable → Executable
queue_for_update pid e = record e { queued_pids = e.queued_pids ++ pid ∷ [] }

unfoldable pub clear : Executable → Executable
clear e = record e { managed_pid = none; running_params = none; need_to_read_params = true }

-- startPublishingLogs
unfoldable pub start_publishing_logs : Executable → Executable
start_publishing_logs e =
    if is_some e.managed_pid && e.should_publish then record e { publishing = true } else e

unfoldable pub change_desired_state : Bool → Option ℕ → Executable → Executable
change_desired_state run params e = record e {
  desired_run_state = if run then should_run else shouldnt_run;
  desired_params = params;
}

unfoldable pub change_desired_log_publishing_state : Bool → Executable → Executable
change_desired_log_publishing_state b e = record e { should_publish = b }

-- The signals of killQueuedProcesses.
unfoldable pub kill_all : List ℕ → List Action
kill_all [] = []
kill_all (p ∷ ps) = kills p ∷ kill_all ps

unfoldable pub kill_queued_processes : Executable → List Action × Executable
unfolding kill_all
kill_queued_processes e = (kill_all e.queued_pids, record e { queued_pids = [] })

-- The list without the first `m`, where there is one.
unfoldable pub erase_own : ℕ → List ℕ → Option (List ℕ)
erase_own m [] = none
erase_own m (p ∷ ps) =
    let rest = erase_own m ps in
    if m == p then some ps else elim rest [ none ↦ none | some qs ↦ some (p ∷ qs) ]

-- `command_line` is what is found for a process, and `has_params` says which parameter sets metaExec
-- has.
module _ (command_line : ℕ → CommandLine) (has_params : ℕ → Bool) where
  -- The ends of readProcParams: without a match the running set stays what it was.
  unfoldable pub read_proc_params : ℕ → Executable → Executable
  read_proc_params pid e = elim (command_line pid) [
    | too_short ↦ record e { need_to_read_params = false; running_params = none }
    | unmatched ↦ record e { need_to_read_params = false }
    | matched s ↦ record e {
      need_to_read_params = false;
      running_params = some s;
      desired_params = if is_some e.desired_params then e.desired_params else some s;
    }
  ]

  -- updateStats
  unfoldable pub update_stats : ℕ → Executable → Executable
  unfolding read_proc_params
  update_stats pid e = if e.need_to_read_params then read_proc_params pid e else e

  -- startProcess, given what fork returns: `none` is the exception of parameterMap.at.
  unfoldable pub start_process : Option ℕ → Executable → Option (List Action × Executable)
  unfolding start_publishing_logs
  start_process forked e = elim e.desired_params [
    | none ↦ none
    | some s ↦
        if has_params s
        then elim forked [
          | none ↦ some ([], record e { managed_pid = none })
          | some pid ↦ some (
            starts pid ∷ [],
            if e.should_publish
                then start_publishing_logs (record e { managed_pid = some pid })
                else record e { managed_pid = some pid },
          )
        ]
        else none
  ]

  -- The first queued process becomes the managed one, and the others are killed.
  unfoldable pub adopt : ℕ → List ℕ → Executable → List Action × Executable
  unfolding kill_queued_processes update_stats
  adopt pid pids e =
      let (actions, f) =
        kill_queued_processes (record e { managed_pid = some pid; queued_pids = pids }) in
      (actions, update_stats pid f)

  -- The managed process `m` is in the list, and `rest` are the others.
  unfoldable pub keep_or_kill : ℕ → List ℕ → Executable → List Action × Executable
  unfolding update_stats clear kill_queued_processes start_publishing_logs
  keep_or_kill m rest e =
      let f = update_stats m e in
      let g =
        (if not f.should_publish && f.publishing then record f { publishing = false } else f) in
      if same_params g.desired_params g.running_params || is_manual_started g.desired_run_state
      then kill_queued_processes (
          let h = (if g.should_publish && not g.publishing then start_publishing_logs g else g) in
          record h { queued_pids = rest })
      else let (actions, h) = kill_queued_processes (clear g) in
        (actions, record h { publishing = false })

  -- A process should run, and `p ∷ ps` are queued.
  unfoldable pub update_running : ℕ → List ℕ → Executable → List Action × Executable
  unfolding adopt keep_or_kill erase_own
  update_running p ps e = elim e.managed_pid [
    | none ↦ adopt p ps e
    | some m ↦ elim (erase_own m (p ∷ ps)) [
      | none ↦ adopt p ps e
      | some rest ↦ keep_or_kill m rest e
    ]
  ]

  unfoldable pub update_stopped : ℕ → List ℕ → Executable → List Action × Executable
  unfolding adopt clear kill_queued_processes
  update_stopped p ps e = elim e.managed_pid [
    | some m ↦ kill_queued_processes (record (clear e) { publishing = false })
    | none ↦ adopt p ps (record e { desired_run_state = manual_started })
  ]

  -- update() without and with queued processes; `waited` says that a second has passed since the last
  -- start. The comparison in the branch where nothing runs and nothing should run has no effect.
  unfoldable pub update_idle :
      RunState → Bool → Option ℕ → Executable → Option (List Action × Executable)
  unfolding start_process clear
  update_idle should_run waited forked e =
      if waited && is_some e.desired_params then start_process forked e else some ([], e)
  update_idle _ waited forked e = some ([], clear e)

  unfoldable pub update_queued : RunState → ℕ → List ℕ → Executable → List Action × Executable
  unfolding update_running update_stopped
  update_queued shouldnt_run p ps e = update_stopped p ps e
  update_queued _ p ps e = update_running p ps e

  -- update()
  unfoldable pub update : Bool → Option ℕ → Executable → Option (List Action × Executable)
  unfolding update_idle update_queued
  update waited forked e = elim e.queued_pids [
    | [] ↦ update_idle e.desired_run_state waited forked e
    | p ∷ ps ↦ some (update_queued e.desired_run_state p ps e)
  ]
