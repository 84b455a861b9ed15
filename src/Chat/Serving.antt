-- ===== src/Chat/Serving.antt =====
-- `main` of SocketServer.c: the listening socket, then the loop, in which the threads take turns.
use c_network_tools.Base.{
  ℕ, ℤ, is_minus_one, is_neg, is_zero, ◌≡◌, not, List, ◌++◌, Option, some, ◌>>=◌, if◌then◌else◌,
  Holds, Holds-if, Holds-bind, Holds-some,
}
use c_network_tools.Chat.{Call}
use c_network_tools.Chat.Inbox.{inbox}
use c_network_tools.Chat
use c_network_tools.Chat.Room
use c_network_tools.Chat.Room.Laws.{observed}
use c_network_tools.Chat.Threads.{Server, Event, run, start}
use c_network_tools.Chat.Threads.View.{shown, sends, closes}
use c_network_tools.Chat.Threads.Explained.{unsent}
use c_network_tools.Chat.Threads.Spoken.{heard_by, spoken}
use c_network_tools.Chat.Threads.Balance.{run-heard}
use c_network_tools.Chat.Threads.Laws.{run-explained}

-- The answers of `socket`, `bind` and `listen`.
pub record Listener : Type 0 where
  pub socket : ℤ
  pub bind : ℤ
  pub listen : ℤ

-- The first three end with status 1; only the third closes the listening socket.
pub data Outcome : Type 0 where
  creation_failed binding_failed listen_failed : Outcome
  serving : Server → List Call → Outcome

-- `main`, up to the event that comes next; `none` if the events cannot happen.
unfoldable pub main : Listener → List Event → Option Outcome
unfolding run
main w events =
    if is_minus_one w.socket
    then some creation_failed
    else if is_neg w.bind
    then some binding_failed
    else if not (is_zero w.listen)
    then some listen_failed
    else (do (s, calls) ← run start events; some (serving s calls))

-- A program that serves has taken its events from the start.
abbrev HasRun : List Event → Outcome → Type 0
HasRun events creation_failed = Unit
HasRun events binding_failed = Unit
HasRun events listen_failed = Unit
HasRun events (serving s calls) = run start events ≡ some (s, calls)

main-HasRun : (w : Listener) (events : List Event) → Holds (HasRun events) (main w events)
unfolding main
main-HasRun w events =
    Holds-if (HasRun events) (is_minus_one w.socket) _ _ (λ e. tt)
      (λ e.
        Holds-if (HasRun events) (is_neg w.bind) _ _ (λ e. tt)
          (λ e.
            Holds-if (HasRun events) (not (is_zero w.listen)) _ _ (λ e. tt)
              (λ e. Holds-bind (HasRun events) (run start events) _ (λ r ran. ran))))

-- For every run of the program that serves there are events of Chat, which lead it to what the
-- threads' state shows, and which the room takes with the same calls; these calls close the sockets
-- that the threads and the loop closed, in the same order, and send the messages that the threads
-- sent, in the same order, followed by those that the call of `broadcastMessage` in the mutex has
-- yet to send.
pub main-explained :
    (w : Listener) (turns : List Event) (s : Server) (calls : List Call)
    → main w turns ≡ some (serving s calls)
    → (events : List Chat.Event) × (told : List Call) × (Chat.run Chat.start events
        ≡ some (shown s, told))
      × (observed (Room.run Room.empty events) ≡ some told)
      × (closes told ≡ closes calls)
      × (sends told ≡ sends calls ++ unsent s.client_sockets s.lock)
main-explained w turns s calls e =
    run-explained turns s calls
      (Holds-some (HasRun turns) (main w turns) (serving s calls) e (main-HasRun w turns))

-- In every run of the program that serves each socket is sent the texts of the calls of
-- `broadcastMessage`, in the order in which these take the mutex: a copy of each text for each place
-- in which the socket stands in `clientSockets` when the call takes the mutex, and none if the
-- socket is that of the sender. What the call in the mutex has yet to send counts as sent.
pub main-heard :
    (w : Listener) (turns : List Event) (s : Server) (calls : List Call)
    → main w turns ≡ some (serving s calls)
    → (fd : ℕ)
    → inbox fd (calls ++ unsent s.client_sockets s.lock) ≡ heard_by fd (spoken start turns)
main-heard w turns s calls e =
    run-heard turns s calls
      (Holds-some (HasRun turns) (main w turns) (serving s calls) e (main-HasRun w turns))
