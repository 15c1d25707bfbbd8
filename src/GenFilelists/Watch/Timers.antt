-- ===== src/GenFilelists/Watch/Timers.antt =====
-- tools/gen_filelists.py: the timers of a watcher, in any order of events, in a burst of events of files,
-- and while git holds a lock.
use teide.Base.{
  ◌≡◌, refl, sym, ◌∙◌, ap, ℕ, ◌+◌, ◌⊎◌, inl, inr, Bool, true, false, List, [], ◌∷◌, Option, none,
  some, arith, ◌||◌, ◌&&◌, ◌==◌, not, keep, Bool-cases,
}
use teide.GenFilelists.Watch.{
  Event, created, deleted, moved, is_lock, git_event, Watcher, cancel, handle_event, is_relevant,
  file_event, fire, State, start, runs, Step, git, file, timeout, Reach, here, next,
}

-- No timer runs, or only the one that the watcher holds, which is the newest one.
abbrev pub IsTidy : Watcher → Type 0
IsTidy w = (w.running ≡ []) ⊎ ((t : ℕ) × (w.running ≡ t ∷ []) × (w.timer ≡ some t))

cancel_tidy : (w : Watcher) → IsTidy w → cancel w.timer w.running ≡ []
cancel_tidy w (inl idle) = rw idle (cancel_nothing w.timer)
  where
    cancel_nothing : (timer : Option ℕ) → cancel timer [] ≡ []
    cancel_nothing none = refl
    cancel_nothing (some t) = refl
cancel_tidy w (inr (t, one, held)) = rw (one, held) (ground arith)

handle_event-IsTidy : (pause : Bool) (w : Watcher) → IsTidy w → IsTidy (handle_event pause w)
unfolding handle_event
handle_event-IsTidy true w h = h
handle_event-IsTidy false w h = inr (w.made, ap (λ l. w.made ∷ l) (cancel_tidy w h), refl)

file_event-IsTidy :
    (pause : Bool) (e : Event) (w : Watcher) → IsTidy w → IsTidy (file_event pause e w)
unfolding file_event
file_event-IsTidy pause e w h = elim (Bool-cases (is_relevant e)) [
  | inl p ↦ rw p (handle_event-IsTidy pause w h)
  | inr p ↦ rw p h
]

fire_idle : (t : ℕ) (w : Watcher) → runs t w.running ≡ true → IsTidy w → (fire t w).running ≡ []
unfolding fire
fire_idle t w r (inl idle) = let none_runs = rw idle at r in cc
fire_idle t w r (inr (u, one, held)) = let r' = rw one at r in rw one (ground arith)

-- However the events of git, of the files and of the timers are interleaved, a watcher never has
-- two running timers, and a running timer is the one that its next event cancels.
pub Reach-IsTidy : {s : State} → Reach start s → IsTidy s.watcher
Reach-IsTidy here = inl refl
Reach-IsTidy (next r (git s e)) = Reach-IsTidy r
Reach-IsTidy (next r (file s e)) = file_event-IsTidy s.pause_updating e s.watcher (Reach-IsTidy r)
Reach-IsTidy (next r (timeout s t running)) = inl (fire_idle t s.watcher running (Reach-IsTidy r))

-- Events of files in a row.
pub burst : Bool → List Event → Watcher → Watcher
burst pause [] w = w
burst pause (e ∷ es) w = burst pause es (file_event pause e w)

abbrev pub any_relevant : List Event → Bool
any_relevant [] = false
any_relevant (e ∷ es) = is_relevant e || any_relevant es

-- A timer waits, and `gen_filelist` has been called this often.
abbrev Waits : ℕ → Watcher → Type 0
Waits calls w = (t : ℕ) × (w.running ≡ t ∷ []) × (w.timer ≡ some t) × (w.calls ≡ calls)

Waits-IsTidy : (calls : ℕ) (w : Watcher) → Waits calls w → IsTidy w
Waits-IsTidy calls w (t, one, held, _) = inr (t, one, held)

file_event-Waits :
    (e : Event) (w : Watcher)
    → is_relevant e ≡ true
    → IsTidy w
    → Waits w.calls (file_event false e w)
unfolding file_event
file_event-Waits e w p h = rw p (w.made, ap (λ l. w.made ∷ l) (cancel_tidy w h), refl, refl)

file_event-irrelevant :
    (pause : Bool) (e : Event) (w : Watcher) → is_relevant e ≡ false → file_event pause e w ≡ w
unfolding file_event
file_event-irrelevant pause e w p = rw p

burst-Waits :
    (calls : ℕ) (es : List Event) (w : Watcher) → Waits calls w → Waits calls (burst false es w)
unfolding burst
burst-Waits calls [] w h = h
burst-Waits calls (e ∷ es) w h = elim (Bool-cases (is_relevant e)) [
  | inl p ↦
      let (t, one, held, count) = file_event-Waits e w p (Waits-IsTidy calls w h) in
      burst-Waits calls es (file_event false e w) (t, one, held, count ∙ h.3)
  | inr p ↦ rw (file_event-irrelevant false e w p, burst) (burst-Waits calls es w h)
]

burst-relevant :
    (es : List Event) (w : Watcher)
    → any_relevant es ≡ true
    → IsTidy w
    → Waits w.calls (burst false es w)
unfolding burst
burst-relevant [] w any h = cc
burst-relevant (e ∷ es) w any h = elim (Bool-cases (is_relevant e)) [
  | inl p ↦ burst-Waits w.calls es (file_event false e w) (file_event-Waits e w p h)
  | inr p ↦ rw (file_event-irrelevant false e w p, burst) (burst-relevant es w (rw p at any) h)
]

-- While updating is not paused, any number of events of files in a row, of which one is relevant, leads to
-- exactly one more call of `gen_filelist`: one timer waits after them, and when it fires none is left.
pub burst_once :
    (es : List Event) (w : Watcher)
    → any_relevant es ≡ true
    → IsTidy w
    → (t : ℕ) × ((burst false es w).running ≡ t ∷ [])
      × ((fire t (burst false es w)).running ≡ [])
      × ((fire t (burst false es w)).calls ≡ w.calls + 1)
unfolding fire
burst_once es w any h =
    let (t, one, held, count) = burst-relevant es w any h in
    (t, one, rw one (ground arith), ap (λ n. n + 1) count)

-- A lock is deleted, or is moved to a path that is no lock.
abbrev pub frees : Event → Bool
frees (created src_path) = false
frees (deleted is_directory src_path) = is_lock src_path
frees (moved src_path dest_path) = is_lock src_path && not (is_lock dest_path)

abbrev pub frees_step : {s t : State} → Step s t → Bool
frees_step (git s e) = frees e
frees_step (file s e) = false
frees_step (timeout s t running) = false

-- Any steps of which none frees a lock.
pub data Held (s : State) : State → Type 0 where
  same : Held s s
  more : {t u : State} → Held s t → (step : Step t u) → frees_step step ≡ false → Held s u

git_event-paused : (e : Event) → frees e ≡ false → git_event e true ≡ true
unfolding git_event
git_event-paused (created src_path) h = ground arith
git_event-paused (deleted is_directory src_path) h = ground arith
git_event-paused (moved src_path dest_path) h = ground arith

file_event-paused : (e : Event) (w : Watcher) → file_event true e w ≡ w
unfolding file_event handle_event
file_event-paused e w = elim (Bool-cases (is_relevant e)) [ inl p ↦ rw p refl | inr p ↦ rw p refl ]

runs-keep :
    (n t : ℕ) (running : List ℕ)
    → runs n (keep (λ u. not (u == t)) running) ≡ true
    → runs n running ≡ true
runs-keep n t [] h = h
runs-keep n t (u ∷ running) h = ground (arith, runs-keep n t running)

-- No timer was started between the two, and the lock is still seen.
abbrev pub IsQuiet : Watcher → State → Type 0
IsQuiet before s =
    (s.pause_updating ≡ true)
    × (s.watcher.made ≡ before.made)
    × (s.watcher.timer ≡ before.timer)
    × ((n : ℕ) → runs n s.watcher.running ≡ true → runs n before.running ≡ true)

Held-IsQuiet_of_paused : {s t : State} → Held s t → s.pause_updating ≡ true → IsQuiet s.watcher t
unfolding fire
Held-IsQuiet_of_paused same paused = (paused, refl, refl, λ n h. h)
Held-IsQuiet_of_paused (more held (git t e) free) paused =
    let (p, made, timer, running) = Held-IsQuiet_of_paused held paused in
    (rw p (git_event-paused e free), made, timer, running)
Held-IsQuiet_of_paused (more held (file t e) free) paused =
    let (p, made, timer, running) = Held-IsQuiet_of_paused held paused in
    let still : file_event t.pause_updating e t.watcher ≡ t.watcher =
      rw p (file_event-paused e t.watcher) in
    (
      p,
      ap (λ w. w.made) still ∙ made,
      ap (λ w. w.timer) still ∙ timer,
      λ n h. running n (ap (λ w. runs n w.running) (sym still) ∙ h),
    )
Held-IsQuiet_of_paused (more held (timeout t u runs_u) free) paused =
    let (p, made, timer, running) = Held-IsQuiet_of_paused held paused in
    (p, made, timer, λ n h. running n (runs-keep n u t.watcher.running h))

-- A lock is created, or something is moved to one.
abbrev pub takes : Event → Bool
takes (created src_path) = is_lock src_path
takes (deleted is_directory src_path) = false
takes (moved src_path dest_path) = is_lock dest_path

git_event-takes : (e : Event) (pause : Bool) → takes e ≡ true → git_event e pause ≡ true
unfolding git_event
git_event-takes (created src_path) pause h = rw h refl
git_event-takes (deleted is_directory src_path) pause h = cc
git_event-takes (moved src_path dest_path) pause h = rw h refl

-- From an event that makes an `index.lock` until some `index.lock` is deleted or moved to another name,
-- in whatever order events of git and of files and timeouts come, no timer is started, so that only
-- one that was running before can still fire.
pub Held-IsQuiet :
    {t : State} (s : State) (e : Event)
    → takes e ≡ true
    → Held (record s { pause_updating = git_event e s.pause_updating }) t
    → IsQuiet s.watcher t
Held-IsQuiet s e taken held = Held-IsQuiet_of_paused held (git_event-takes e s.pause_updating taken)
