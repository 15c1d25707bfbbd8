-- ===== src/GenFilelists/Server/Laws.antt =====
-- tools/gen_filelists.py: the protocol of the watch server and its client.
use teide.Base.{
  ◌≡◌, ◌≢◌, ◌↔◌, refl, ◌∙◌, ap, Bool, true, false, not, ◌||◌, ◌&&◌, List, [], ◌∷◌, ◌++◌, map,
  append-nil, append_assoc, Option, none, some, arith, Bool-cases, Option-cases, inl, inr,
}
use teide.Base.Text.{Text, text, text_eq, text_eq_iff, contains}
use teide.GenFilelists.Server.{
  answer, Receive, incoming, unsent, reset, keyboard, Ending, shut_down, os_error, serve, Accept,
  connection, interrupt, failure, next_turn, accept_loop, main, start_server,
}

abbrev pub reply : Text → Text
reply message = (answer message true).0

abbrev pub says_stop : List Text → Bool
says_stop messages = contains messages (text "stop")

answer_lem :
    (m : Text) (running : Bool)
    → answer m running ≡ (reply m, running && not (text_eq (text "stop") m))
unfolding answer
answer_lem m true = ground (arith, text_eq_iff m (text "stop"), text_eq_iff (text "stop") m)
answer_lem m false = ground (arith, text_eq_iff m (text "stop"), text_eq_iff (text "stop") m)

-- The messages that are answered: all before the connection ends, one way or another.
abbrev pub answered : List Receive → List Text
answered [] = []
answered (incoming m ∷ received) = m ∷ answered received
answered (unsent m ∷ received) = []
answered (reset ∷ received) = []
answered (keyboard ∷ received) = []

-- Whether an error or the keyboard ends the connection.
abbrev pub broken : List Receive → Option Ending
broken [] = none
broken (incoming m ∷ received) = broken received
broken (unsent m ∷ received) = some os_error
broken (reset ∷ received) = some os_error
broken (keyboard ∷ received) = some shut_down

abbrev close : Option Ending → Bool → Option Ending
close none true = none
close none false = some shut_down
close (some e) running = some e

-- How a connection ends the loop: by an error, by the keyboard, or by having said `stop`.
abbrev pub ending_of : List Receive → Option Ending
ending_of received = close (broken received) (not (says_stop (answered received)))

serve_lem :
    (received : List Receive) (running : Bool) (sent : List Text)
    → serve received running sent ≡ (
      sent ++ map reply (answered received),
      close (broken received) (running && not (says_stop (answered received))),
    )
unfolding serve
serve_lem [] true sent = rw append-nil refl
serve_lem [] false sent = rw append-nil refl
serve_lem (unsent m ∷ received) running sent = rw append-nil refl
serve_lem (reset ∷ received) running sent = rw append-nil refl
serve_lem (keyboard ∷ received) running sent = rw append-nil refl
serve_lem (incoming m ∷ received) running sent =
    rw (answer_lem m running, serve_lem received, append_assoc, and_or)
  where
    and_or : (r a b : Bool) → ((r && not a) && not b) ≡ (r && not (a || b))
    and_or r a b = ground arith

abbrev pub unless_ended : {A : Type 0} → Option Ending → A → A → A
unless_ended none later now = later
unless_ended (some e) later now = now

-- The messages of the connections that are served, up to the one that ends the loop.
abbrev pub sessions : List Accept → List (List Text)
sessions [] = []
sessions (interrupt ∷ rest) = []
sessions (failure ∷ rest) = []
sessions (connection received ∷ rest) =
    answered received ∷ unless_ended (ending_of received) (sessions rest) []

-- The first of the events that ends the loop decides how it ends.
abbrev pub loop_ending : List Accept → Option Ending
loop_ending [] = none
loop_ending (interrupt ∷ rest) = some shut_down
loop_ending (failure ∷ rest) = some os_error
loop_ending (connection received ∷ rest) =
    unless_ended (ending_of received) (loop_ending rest) (ending_of received)

-- No command, the empty one, or `start`.
abbrev pub starts : Option Text → Bool
starts none = true
starts (some []) = true
starts (some (c ∷ s)) = text_eq (c ∷ s) (text "start")

accept_loop_lem :
    (events : List Accept) (served : List (List Text))
    → accept_loop events served ≡ (served ++ map (map reply) (sessions events), loop_ending events)
unfolding accept_loop
accept_loop_lem [] served = rw append-nil refl
accept_loop_lem (interrupt ∷ rest) served = rw append-nil refl
accept_loop_lem (failure ∷ rest) served = rw append-nil refl
accept_loop_lem (connection received ∷ rest) served =
    let sent = map reply (answered received) in
    ap (λ p. next_turn p.1 (served ++ (p.0 ∷ [])) (accept_loop rest (served ++ (p.0 ∷ []))))
      (serve_lem received true [])
    ∙ elim (Option-cases (ending_of received)) [
      | inr (e, ends) ↦ rw ends refl
      | inl goes_on ↦ rw goes_on (
          accept_loop_lem rest (served ++ (sent ∷ []))
          ∙ ap (λ l. (l, loop_ending rest))
              (append_assoc served (sent ∷ []) (map (map reply) (sessions rest))))
    ]

-- The protocol: what a message is answered with.
pub data Replies : Text → Text → Type 0 where
  stopped : Replies (text "stop") (text "Server stopped")
  status : Replies (text "status") (text "Server running")
  unknown : (m : Text) → m ≢ text "stop" → m ≢ text "status" → Replies m (text "Unknown command")

abbrev pub Pairwise : {A B : Type 0} → (A → B → Type 0) → List A → List B → Type 0
Pairwise R [] [] = Unit
Pairwise R [] (y ∷ ys) = ⊥
Pairwise R (x ∷ xs) [] = ⊥
Pairwise R (x ∷ xs) (y ∷ ys) = R x y × Pairwise R xs ys

Pairwise-map :
    {A B : Type 0} (R : A → B → Type 0) (f : A → B)
    → ((x : A) → R x (f x))
    → (xs : List A) → Pairwise R xs (map f xs)
Pairwise-map R f h [] = tt
Pairwise-map R f h (x ∷ xs) = (h x, Pairwise-map R f h xs)

differs : (m n : Text) → text_eq m n ≡ false → m ≢ n
differs m n apart e = cc (rw ((text_eq_iff m n).1 e) at apart)

reply-Replies : (m : Text) → Replies m (reply m)
unfolding answer
reply-Replies m = elim (Bool-cases (text_eq m (text "stop"))) [
  | inl stop ↦ rw (reply, answer, stop) (rw ((text_eq_iff m (text "stop")).0 stop) stopped)
  | inr other ↦ elim (Bool-cases (text_eq m (text "status"))) [
    | inl asks ↦
        rw (reply, answer, other, asks) (rw ((text_eq_iff m (text "status")).0 asks) status)
    | inr apart ↦
        rw (reply, answer, other, apart)
          (unknown m (differs m (text "stop") other) (differs m (text "status") apart))
  ]
]

-- The server answers the messages of one connection after the other, in order and by the protocol, each
-- connection up to where it is closed or broken. The loop ends after the first connection that
-- has said `stop` or in which the keyboard interrupts, or when the keyboard interrupts between two; and
-- it is left by an OSError of a socket, but by nothing else.
pub accept_loop_correct :
    (events : List Accept)
    → Pairwise (Pairwise Replies) (sessions events) (accept_loop events []).0
      × ((accept_loop events []).1 ≡ loop_ending events)
accept_loop_correct events = rw (accept_loop_lem events []) (
  Pairwise-map (Pairwise Replies) (map reply) (Pairwise-map Replies reply reply-Replies)
      (sessions events),
  refl,
)

-- `watch` starts a server exactly when it is given no command or `start` and no server answers: it
-- never starts one beside a server that answers the way the loop does, and always does, in a
-- directory, where the connection is refused.
pub main-start_server :
    (is_dir : Bool) (command : Option Text)
    → (main (λ message. some (reply message)) is_dir true command ≢ start_server)
      × ((main (λ message. none) is_dir true command ≡ start_server)
          ↔ ((is_dir ≡ true) × (starts command ≡ true)))
unfolding main answer
main-start_server is_dir none = ground arith
main-start_server is_dir (some []) = ground arith
main-start_server is_dir (some (c ∷ s)) = ground arith
