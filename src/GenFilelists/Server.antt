-- ===== src/GenFilelists/Server.antt =====
-- tools/gen_filelists.py: the watch server's loop, the client, and the choice that `main` makes.
pub mod Laws
use teide.Base.{
  ℕ, ◌+◌, Bool, true, false, not, ◌||◌, List, [], ◌∷◌, ◌++◌, Option, none, some, if◌then◌else◌,
}
use teide.Base.Text.{Text, text, text_eq}

-- What the server does with one message: the answer, and whether it goes on running.
unfoldable pub answer : Text → Bool → Text × Bool
answer message running =
    if text_eq message (text "stop")
    then (text "Server stopped", false)
    else if text_eq message (text "status")
    then (text "Server running", running)
    else (text "Unknown command", running)

-- What the next turn of the inner loop meets: a message, which is not empty, and is answered; a message
-- to which `sendall` raises an OSError; an OSError of `recv`; or Ctrl-C.
pub data Receive : Type 0 where
  incoming : Text → Receive
  unsent : Text → Receive
  reset : Receive
  keyboard : Receive

-- How the server's loop ends: it stops the observer, or an exception that it does not catch leaves it.
pub data Ending : Type 0 where
  shut_down : Ending
  os_error : Ending

-- The inner loop, up to the end of the connection, where `recv` gives nothing. The result is what was
-- sent back, and how this connection ends the outer loop, if it does.
unfoldable pub serve : List Receive → Bool → List Text → List Text × Option Ending
unfolding answer
serve [] running sent = (sent, if running then none else some shut_down)
serve (incoming m ∷ received) running sent =
    let (reply, running') = answer m running in serve received running' (sent ++ (reply ∷ []))
serve (unsent m ∷ received) running sent = (sent, some os_error)
serve (reset ∷ received) running sent = (sent, some os_error)
serve (keyboard ∷ received) running sent = (sent, some shut_down)

-- What `s.accept` gives: a connection with what comes of it, Ctrl-C, or an OSError.
pub data Accept : Type 0 where
  connection : List Receive → Accept
  interrupt : Accept
  failure : Accept

-- `while running`
abbrev pub next_turn : {A : Type 0} → Option Ending → A → A × Option Ending → A × Option Ending
next_turn none served more = more
next_turn (some e) served more = (served, some e)

-- The outer loop: the answers for each connection that was served, and how the loop ended, if it did.
unfoldable pub accept_loop : List Accept → List (List Text) → List (List Text) × Option Ending
unfolding serve
accept_loop [] served = (served, none)
accept_loop (interrupt ∷ rest) served = (served, some shut_down)
accept_loop (failure ∷ rest) served = (served, some os_error)
accept_loop (connection received ∷ rest) served =
    let (sent, ending) = serve received true [] in
    let served' = served ++ (sent ∷ []) in next_turn ending served' (accept_loop rest served')

-- What `main` does.
pub data Action : Type 0 where
  -- "... is not a directory", exit status 1
  no_directory : Action
  -- "Starting server..."
  start_server : Action
  print : Text → Action
  generate : Action

-- The client sends one command; nothing comes back where the connection is refused.
abbrev pub Client : Type 0
Client = Text → Option Text

-- `x or default`, for a text that may be missing
abbrev or_else : Option Text → Text → Text
or_else none default = default
or_else (some []) default = default
or_else (some (c ∷ s)) default = c ∷ s

abbrev is_truthy : Option Text → Bool
is_truthy none = false
is_truthy (some []) = false
is_truthy (some (c ∷ s)) = true

-- `opts.command` may be missing; `watch_mode` tells whether `watch` was given.
unfoldable pub main : Client → Bool → Bool → Option Text → Action
main watch_client is_dir watch_mode command =
    if not is_dir
    then no_directory
    else if not watch_mode
    then generate
    else if not (is_truthy command) || text_eq (or_else command []) (text "start")
    then (if not (is_truthy (watch_client (text "status")))
        then start_server
        else print (text "Server already running"))
    else print (or_else (watch_client (or_else command [])) (text "Server not running"))
