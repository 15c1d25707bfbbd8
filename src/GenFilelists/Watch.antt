-- ===== src/GenFilelists/Watch.antt =====
-- tools/gen_filelists.py: the handlers of the file system events, `GitWatcher` and `FileWatcher`,
-- and the timers that call `gen_filelist`.
pub mod Timers
use teide.Base.{
  ℕ, suc, ◌+◌, Bool, true, false, not, ◌||◌, List, [], ◌∷◌, ◌==◌, if◌then◌else◌, Option, none, some,
  keep, ◌≡◌,
}
use teide.Base.Text.{Text, text, text_eq}
use teide.GenFilelists.Paths.{basename, is_source_file}

-- An event of the file system; a deletion tells whether it was of a directory.
pub data Event : Type 0 where
  created : Text → Event
  deleted : Bool → Text → Event
  moved : Text → Text → Event

abbrev pub is_lock : Text → Bool
is_lock path = text_eq (basename path) (text "index.lock")

-- `GitWatcher`: the new value of `pause_updating`.
unfoldable pub git_event : Event → Bool → Bool
git_event (created src_path) pause = if is_lock src_path then true else pause
git_event (deleted is_directory src_path) pause = if is_lock src_path then false else pause
git_event (moved src_path dest_path) pause =
    let pause' = if is_lock src_path then false else pause in
    if is_lock dest_path then true else pause'

-- A `FileWatcher`: `timer` is the timer that it holds, `running` are the started timers that have
-- neither fired nor been cancelled, `made` counts the timers, and `calls` the calls of `gen_filelist`.
pub record Watcher : Type 0 where
  pub timer : Option ℕ
  pub running : List ℕ
  pub made : ℕ
  pub calls : ℕ

-- `self.timer.cancel()`, which does nothing to a timer that has fired.
abbrev pub cancel : Option ℕ → List ℕ → List ℕ
cancel none running = running
cancel (some t) running = keep (λ u. not (u == t)) running

unfoldable pub handle_event : Bool → Watcher → Watcher
handle_event pause_updating w = if pause_updating then w else record {
  timer = some w.made;
  running = w.made ∷ cancel w.timer w.running;
  made = w.made + 1;
  calls = w.calls;
}

-- Whether `FileWatcher` hands an event to `_handle_event`.
unfoldable pub is_relevant : Event → Bool
is_relevant (created src_path) = is_source_file src_path
is_relevant (deleted is_directory src_path) = is_directory || is_source_file src_path
is_relevant (moved src_path dest_path) = is_source_file src_path || is_source_file dest_path

unfoldable pub file_event : Bool → Event → Watcher → Watcher
unfolding handle_event is_relevant
file_event pause_updating event w = if is_relevant event then handle_event pause_updating w else w

-- A second passes for a running timer: it calls `gen_filelist`.
unfoldable pub fire : ℕ → Watcher → Watcher
fire t w = record w { running = keep (λ u. not (u == t)) w.running; calls = w.calls + 1 }

-- The watcher of one project, and the global flag.
pub record State : Type 0 where
  pub pause_updating : Bool
  pub watcher : Watcher

abbrev pub start : State
start = record {
  pause_updating = false;
  watcher = record { timer = none; running = []; made = 0; calls = 0 };
}

abbrev pub runs : ℕ → List ℕ → Bool
runs t [] = false
runs t (u ∷ us) = u == t || runs t us

-- What can happen next.
pub data Step : State → State → Type 0 where
  git :
      (s : State) (e : Event) → Step s (record s { pause_updating = git_event e s.pause_updating })
  file :
      (s : State) (e : Event)
      → Step s (record s { watcher = file_event s.pause_updating e s.watcher })
  timeout :
      (s : State) (t : ℕ)
      → runs t s.watcher.running ≡ true
      → Step s (record s { watcher = fire t s.watcher })

pub data Reach (s : State) : State → Type 0 where
  here : Reach s s
  next : {t u : State} → Reach s t → Step t u → Reach s u
