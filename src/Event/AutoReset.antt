-- ===== src/Event/AutoReset.antt =====
-- event_handling/src/AutoResetEvent.cpp: an event that lets one thread pass and resets itself.
-- The mutex `protect` and the condition variable are the standard library's: a call happens while its
-- thread holds the mutex, `wait` gives it up and takes it again, and a blocked thread may wake without
-- a notification. `protectWatingThread` guards single reads and writes of the counter.
pub mod Invariant
use Prim.Native.Nat.{◌^◌}
use supplementary.Base.{
  ℕ, zero, suc, ◌<◌, ◌≡◌, ◌%◌, ◌&&◌, Bool, true, false, Option, none, some, update, ltb,
  if◌then◌else◌,
}

-- Where a thread stands: not in waitOne, at the test of the loop, in `wait`, or woken without the mutex.
pub data Place : Type 0 where
  outside testing blocked woken : Place

pub record Event : Type 0 where
  pub flag : Bool
  -- the 32 bits of the int
  pub waiting_thread : ℕ
  pub holder : Option ℕ
  pub place : ℕ → Place

-- AutoResetEvent::AutoResetEvent
unfoldable pub make_event : Bool → Event
make_event initial = record {
  flag = initial;
  waiting_thread = 0;
  holder = none;
  place = λ _. outside;
}

-- set() where no thread is blocked, and where notify_one wakes the thread `i`.
unfoldable pub set : Event → Event
set e = record e { flag = true }

unfoldable pub wake : ℕ → Event → Event
wake i e = record e { place = update e.place i woken }

unfoldable pub reset : Event → Event
reset e = record e { flag = false }

-- waitingThread++ on the 32 bits of an int, which wraps around; that C++ leaves the overflow undefined
-- allows it.
unfoldable pub increment : ℕ → ℕ
increment n = suc n % 2 ^ 32

-- waitOne() up to its loop.
unfoldable pub enter : ℕ → Event → Event
unfolding increment
enter i e = record e {
  waiting_thread = increment e.waiting_thread;
  holder = some i;
  place = update e.place i testing;
}

-- signal.wait(lk), and the end of the wait.
unfoldable pub block : ℕ → Event → Event
block i e = record e { holder = none; place = update e.place i blocked }

unfoldable pub relock : ℕ → Event → Event
relock i e = record e { holder = some i; place = update e.place i testing }

-- The rest of waitOne(): the counter is incremented once more.
unfoldable pub pass : ℕ → Event → Event
unfolding increment
pass i e = record e {
  flag = false;
  waiting_thread = increment e.waiting_thread;
  holder = none;
  place = update e.place i outside;
}

-- waitingThread > 0: the bits from 2 ^ 31 on are those of the negative numbers.
unfoldable pub is_thread_waiting : Event → Bool
is_thread_waiting e = ltb 0 e.waiting_thread && ltb e.waiting_thread (2 ^ 31)

-- The states that threads reach, with the number of calls of set() that were made, of threads that
-- entered waitOne() and of threads that left it.
pub data Reached (initial : Bool) : ℕ → ℕ → ℕ → Event → Type 0 where
  start : Reached initial 0 0 0 (make_event initial)
  set_quietly :
      {s n p : ℕ} {e : Event}
      → Reached initial s n p e
      → e.holder ≡ none
      → ((i : ℕ) → ¬ (e.place i ≡ blocked))
      → Reached initial (suc s) n p (set e)
  set_and_wake :
      {s n p : ℕ} {e : Event} (i : ℕ)
      → Reached initial s n p e
      → e.holder ≡ none
      → e.place i ≡ blocked
      → Reached initial (suc s) n p (wake i (set e))
  resets :
      {s n p : ℕ} {e : Event}
      → Reached initial s n p e
      → e.holder ≡ none
      → Reached initial s n p (reset e)
  enters :
      {s n p : ℕ} {e : Event} (i : ℕ)
      → Reached initial s n p e
      → e.holder ≡ none
      → e.place i ≡ outside
      → Reached initial s (suc n) p (enter i e)
  blocks :
      {s n p : ℕ} {e : Event} (i : ℕ)
      → Reached initial s n p e
      → e.place i ≡ testing
      → e.flag ≡ false
      → Reached initial s n p (block i e)
  wakes_up :
      {s n p : ℕ} {e : Event} (i : ℕ)
      → Reached initial s n p e
      → e.place i ≡ blocked
      → Reached initial s n p (wake i e)
  relocks :
      {s n p : ℕ} {e : Event} (i : ℕ)
      → Reached initial s n p e
      → e.holder ≡ none
      → e.place i ≡ woken
      → Reached initial s n p (relock i e)
  passes :
      {s n p : ℕ} {e : Event} (i : ℕ)
      → Reached initial s n p e
      → e.place i ≡ testing
      → e.flag ≡ true
      → Reached initial s n (suc p) (pass i e)
