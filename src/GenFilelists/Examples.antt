-- ===== src/GenFilelists/Examples.antt =====
-- tools/gen_filelists.py on small inputs.
use mathlib.Core.List.Perm
use teide.Base.{
  ◌≡◌, ◌≢◌, refl, ◌↔◌, ◌⊎◌, ℕ, ◌+◌, Bool, true, false, List, [], ◌∷◌, ◌++◌, Option, none, some, All,
  inl,
}
use teide.Base.Text.{Text, text, text_eq, text_le, contains}
use teide.GenFilelists.Paths.{source_extensions, is_source_file, basename, path_join}
use teide.GenFilelists.Paths.Extension.{has_other, is_source_file_iff}
use teide.GenFilelists.Listing.{Tree, dir, end, entry, source_list, render, new_file}
use teide.GenFilelists.Listing.Sorting.{IsSorted}
use teide.GenFilelists.Listing.Reorder.{same_dir, swapped, source_list-SameTree}
use teide.GenFilelists.Listing.Complete.{Listed, source_list_correct}
use teide.GenFilelists.Listing.Rendering.{IsEntry, render-injective}
use teide.GenFilelists.Update.{World, returned, gen_filelist}
use teide.GenFilelists.Update.Laws.{IsUpdate, gen_filelist-IsUpdate}
use teide.GenFilelists.Watch.{
  Event, created, deleted, git_event, file_event, fire, State, start, file, Reach, here, next,
}
use teide.GenFilelists.Watch.Timers.{
  IsTidy, Reach-IsTidy, burst, burst_once, same, more, IsQuiet, Held-IsQuiet,
}
use teide.GenFilelists.Server.{
  Accept, connection, incoming, reset, shut_down, os_error, accept_loop, main, start_server,
}
use teide.GenFilelists.Server.Laws.{
  reply, Replies, Pairwise, sessions, loop_ending, accept_loop_correct, starts, main-start_server,
}
use teide.GenFilelists.Projects.{find_project_dirs, is_project}

is_source_file-names :
    (is_source_file (text "a/.b.hpp") ≡ true)
    × (is_source_file (text ".cpp") ≡ false)
    × (is_source_file (text "..cpp") ≡ false)
    × (is_source_file (text "x.cpp/y") ≡ false)
    × (is_source_file (text "x.c.h") ≡ true)
unfolding is_source_file text_eq
is_source_file-names = (refl, refl, refl, refl, refl)

is_source_file_iff_example : (is_source_file (text "src/Main.cpp") ≡ true) ↔ (
    (stem : Text) × (e : Text) × (text "src/Main.cpp" ≡ stem ++ e)
    × (contains source_extensions e ≡ true)
    × (has_other (basename stem) ≡ true))
is_source_file_iff_example = is_source_file_iff (text "src/Main.cpp")

abbrev util : Tree
util = dir (text "b.h" ∷ []) end

abbrev gpu : Tree
gpu = dir (text "my gpu.cpp" ∷ text "notes.txt" ∷ []) end

abbrev src_tree : Tree
src_tree = dir (text "z.cpp" ∷ []) (entry (text "Util") util (entry (text "Gpu") gpu end))

abbrev src_tree' : Tree
src_tree' = dir (text "z.cpp" ∷ []) (entry (text "Gpu") gpu (entry (text "Util") util end))

abbrev listed : List Text
listed = text "\"src/Gpu/my gpu.cpp\"" ∷ text "src/Util/b.h" ∷ text "src/z.cpp" ∷ []

source_list-windows : source_list b'\\' (some src_tree) none ≡ listed
unfolding source_list is_source_file new_file text_eq text_le
source_list-windows = refl

source_list_correct_example :
    IsSorted (source_list b'/' (some src_tree) none)
    × ((e : Text)
        → (contains (source_list b'/' (some src_tree) none) e ≡ true)
          ↔ (Listed b'/' (some src_tree) (text "src") e ⊎ Listed b'/' none (text "include") e))
source_list_correct_example = source_list_correct b'/' (some src_tree) none

source_list-SameTree_example :
    source_list b'/' (some src_tree) none ≡ source_list b'/' (some src_tree') none
source_list-SameTree_example =
    source_list-SameTree b'/' (some src_tree) (some src_tree') none none
      (same_dir (Perm.refl _) (swapped (text "Util") (text "Gpu") util gpu end)) tt

render-injective_example : listed ≡ listed
render-injective_example = render-injective listed listed entries entries refl
  where
    entries : All IsEntry listed
    entries = ((λ e. cc, refl), ((λ e. cc, refl), ((λ e. cc, refl), tt)))

abbrev plain : Text → Option Text
plain s = some s

abbrev empty : World
empty = record { files = λ path. none; clock = 7; printed = [] }

gen_filelist-IsUpdate_example :
    (w' : World) × (gen_filelist plain b'/' (text "lib") (some src_tree) none empty ≡ returned w')
    × IsUpdate
        (path_join (text "lib") (text "FileLists.cmake"))
        (path_join (text "lib") (text "FileLists.cmake.temp"))
        (render (source_list b'/' (some src_tree) none))
        empty.files
        w'.files
gen_filelist-IsUpdate_example =
    gen_filelist-IsUpdate plain b'/' (text "lib") (some src_tree) none empty
      (render (source_list b'/' (some src_tree) none)) refl

abbrev saved : Event
saved = created (text "src/new.cpp")

abbrev first_state : State
first_state = record start { watcher = file_event false saved start.watcher }

first_running : first_state.watcher.running ≡ 0 ∷ []
unfolding file_event is_source_file text_eq
first_running = refl

abbrev second_state : State
second_state = record first_state { watcher = file_event false saved first_state.watcher }

second_reached : Reach start second_state
second_reached = next (next here (file start saved)) (file first_state saved)

Reach-IsTidy_example : IsTidy second_state.watcher
Reach-IsTidy_example = Reach-IsTidy second_reached

burst_once_example :
    (t : ℕ) × ((burst false (saved ∷ saved ∷ []) start.watcher).running ≡ t ∷ [])
    × ((fire t (burst false (saved ∷ saved ∷ []) start.watcher)).running ≡ [])
    × ((fire t (burst false (saved ∷ saved ∷ []) start.watcher)).calls ≡ 0 + 1)
unfolding file_event is_source_file text_eq
burst_once_example = burst_once (saved ∷ saved ∷ []) start.watcher refl (inl refl)

-- Git takes the lock of the index, and a file is saved.
abbrev locked : State
locked = record start {
  pause_updating = git_event (created (text ".git/index.lock")) start.pause_updating;
}

abbrev saved_locked : State
saved_locked = record locked { watcher = file_event locked.pause_updating saved locked.watcher }

Held-IsQuiet_example : IsQuiet start.watcher saved_locked
unfolding basename text_eq
Held-IsQuiet_example =
    Held-IsQuiet start (created (text ".git/index.lock")) refl (more same (file locked saved) refl)

-- The deletion of the lock of another index below `.git` counts as that of this one.
other_lock : git_event (deleted false (text ".git/modules/vcpkg/index.lock")) true ≡ false
unfolding git_event basename text_eq
other_lock = refl

abbrev session : List Accept
session =
    connection (incoming (text "status") ∷ incoming (text "hello") ∷ [])
    ∷ connection (incoming (text "stop") ∷ incoming (text "status") ∷ [])
    ∷ connection (incoming (text "status") ∷ [])
    ∷ []

answers : accept_loop session [] ≡ (
  (text "Server running" ∷ text "Unknown command" ∷ [])
      ∷ (text "Server stopped" ∷ text "Server running" ∷ [])
      ∷ [],
  some shut_down,
)
unfolding accept_loop text_eq
answers = refl

-- A client that goes away ends the server.
reset_by_peer : accept_loop (connection (reset ∷ []) ∷ session) [] ≡ ([] ∷ [], some os_error)
unfolding accept_loop
reset_by_peer = refl

accept_loop_correct_example :
    Pairwise (Pairwise Replies) (sessions session) (accept_loop session []).0
    × ((accept_loop session []).1 ≡ loop_ending session)
accept_loop_correct_example = accept_loop_correct session

main-start_server_example :
    (main (λ message. some (reply message)) true true none ≢ start_server)
    × ((main (λ message. none) true true none ≡ start_server)
        ↔ ((◌≡◌ {A = Bool} true true) × (starts none ≡ true)))
main-start_server_example = main-start_server true none

found_projects :
    find_project_dirs (text "/w") (
      dir (text "CMakeLists.txt" ∷ []) (
        entry
          (text "tests")
          (dir []
            (entry (text "T") (dir (text "CMakeLists.txt" ∷ []) (entry (text "src") util end)) end))
          end))
    ≡ text "/w" ∷ text "/w/tests/T" ∷ []
unfolding find_project_dirs is_project path_join text_eq
found_projects = refl
