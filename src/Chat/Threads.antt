-- ===== src/Chat/Threads.antt =====
-- Server-Client Relationship/SocketServer.c at the grain of its calls and of `clientsMutex`: the
-- thread of `main` and those of `handleClient` take turns between any two statements that another
-- thread can notice. What a thread does inside the mutex without a call is one step, which the
-- thread that holds the mutex delays; `broadcastMessage` holds it from one `send` to the next.
pub mod View
pub mod Explained
pub mod Moves
pub mod Commits
pub mod Mutex
pub mod Held
pub mod Exclusion
pub mod Release
pub mod Private
pub mod Waiting
pub mod Handler
pub mod Listening
pub mod Laws
pub mod Spoken
pub mod Balance
use c_network_tools.Base.{
  c_string, ℕ, zero, suc, Bool, true, false, List, [], ◌∷◌, ◌++◌, Option, some, none, ◌>>=◌, ◌==◌,
  ◌&&◌, ◌||◌, not, ltb, if◌then◌else◌, get_elem?, set,
}
use c_network_tools.Chat.{
  ClientInfo, Call, sent, closed, add_socket, register, format_message, can_receive, max_clients,
}
use c_network_tools.Chat

-- Where a thread of `handleClient` stands: at the first `recv`, in front of the mutex with the name,
-- in front of the `close` of a client that is not registered, in front of the line for a new client,
-- at the `recv` of the loop, in front of `snprintf` with a message, in front of `broadcastMessage`
-- with its text, in `broadcastMessage`, in front of the `close` behind the loop, in front of the
-- mutex behind that, in front of the last line, for which it reads its record once more, and at its
-- end.
pub data Place : Type 0 where
  naming refused finished : Place
  named : List ℕ → Place
  greeting chatting sending ended leaving parting : ℕ → Place
  heard speaking : ℕ → List ℕ → Place

pub record Thread : Type 0 where
  pub fd : ℕ
  pub ip : List ℕ
  pub place : Place

-- Where `main` stands: at `accept`, in front of the mutex with a socket, in front of the `close` of a
-- socket for which there is no place, or in front of `pthread_create`.
pub data Main : Type 0 where
  accepting : Main
  holding rejecting starting : ℕ → List ℕ → Main

-- A call of `broadcastMessage` that holds the mutex: its thread, its arguments and its `i`.
pub record Broadcast : Type 0 where
  pub thread : ℕ
  pub sender_fd : ℕ
  pub message : List ℕ
  pub next : ℕ

-- The lines that `handleClient` prints, with the name and the address that it reads in the record.
pub data Notice : Type 0 where
  connected disconnected : List ℕ → List ℕ → Notice

pub record Server : Type 0 where
  pub client_sockets : List ℕ
  pub clients : List ClientInfo
  pub threads : List Thread
  pub main : Main
  pub lock : Option Broadcast
  pub notices : List Notice

-- `accept` and `recv` return; any other statement is the next one of `main` or of a thread.
pub data Event : Type 0 where
  accepted : ℕ → List ℕ → Event
  accept_failed main_continues : Event
  received : ℕ → Option (List ℕ) → Event
  continues : ℕ → Event

abbrev pub go : Server → ℕ → Thread → Place → Server
go s t h place = record s { threads = set s.threads t (record h { place = place }) }

abbrev pub prints : Server → Notice → Server
prints s notice = record s { notices = s.notices ++ notice ∷ [] }

abbrev pub is_locked : Option Broadcast → Bool
is_locked none = false
is_locked (some b) = true

-- A round of the loop of `broadcastMessage`, or its end.
unfoldable pub broadcast_next : Server → ℕ → Thread → ℕ → Broadcast → Option (Server × List Call)
broadcast_next s t h i b =
    if ltb b.next max_clients
    then (do
      fd ← get_elem? s.client_sockets b.next
      some (
        record s { lock = some (record b { next = suc b.next }) },
        if not (fd == 0) && not (fd == b.sender_fd) then sent fd b.message ∷ [] else [],
      ))
    else some (record (go s t h (chatting i)) { lock = none }, [])

-- The next statement of `handleClient`, where that is not a `recv`.
unfoldable pub continue : Server → ℕ → Thread → Place → Option (Server × List Call)
unfolding broadcast_next
continue s t h naming = none
continue s t h (named buffer) =
    if is_locked s.lock then none else (elim (register s.clients h.fd buffer h.ip) [
      | none ↦ some (go s t h refused, [])
      | some (clients, i) ↦ some (go (record s { clients = clients }) t h (greeting i), [])
    ])
continue s t h refused = some (go s t h finished, closed h.fd ∷ [])
continue s t h (greeting i) = do
  client ← get_elem? s.clients i
  some (prints (go s t h (chatting i)) (connected (c_string client.name) (c_string client.ip)), [])
continue s t h (chatting i) = none
continue s t h (heard i buffer) = do
  client ← get_elem? s.clients i
  some (go s t h (speaking i (format_message client buffer)), [])
continue s t h (speaking i message) =
    if is_locked s.lock
    then none
    else some (
      record (go s t h (sending i)) {
        lock = some (record { thread = t; sender_fd = h.fd; message = message; next = 0 });
      },
      [],
    )
continue s t h (sending i) = do b ← s.lock; broadcast_next s t h i b
continue s t h (ended i) = some (go s t h (leaving i), closed h.fd ∷ [])
continue s t h (leaving i) = if is_locked s.lock then none else (do
  client ← get_elem? s.clients i
  some (
    go (record s { clients = set s.clients i (record client { socket = 0 }) }) t h (parting i),
    [],
  ))
continue s t h (parting i) = do
  client ← get_elem? s.clients i
  some (prints (go s t h finished) (disconnected (c_string client.name) (c_string client.ip)), [])
continue s t h finished = none

-- A `recv` returns.
unfoldable pub receive : Server → ℕ → Thread → Place → Option (List ℕ) → Option Server
receive s t h naming none = some (go s t h refused)
receive s t h naming (some buffer) = some (go s t h (named buffer))
receive s t h (chatting i) none = some (go s t h (ended i))
receive s t h (chatting i) (some buffer) = some (go s t h (heard i buffer))
receive s t h refused r = none
receive s t h finished r = none
receive s t h (named buffer) r = none
receive s t h (greeting i) r = none
receive s t h (parting i) r = none
receive s t h (sending i) r = none
receive s t h (ended i) r = none
receive s t h (leaving i) r = none
receive s t h (heard i buffer) r = none
receive s t h (speaking i message) r = none

-- The next statement of `main`, where that is not `accept`.
unfoldable pub continue_main : Server → Main → Option (Server × List Call)
continue_main s accepting = none
continue_main s (holding fd ip) =
    if is_locked s.lock then none else (elim (add_socket s.client_sockets fd) [
      | none ↦ some (record s { main = rejecting fd ip }, [])
      | some sockets ↦ some (record s { client_sockets = sockets; main = starting fd ip }, [])
    ])
continue_main s (rejecting fd ip) = some (record s { main = accepting }, closed fd ∷ [])
continue_main s (starting fd ip) = some (
  record s {
    threads = s.threads ++ record { fd = fd; ip = ip; place = naming } ∷ [];
    main = accepting;
  },
  [],
)

-- `main` calls `accept`, and a socket comes.
unfoldable pub accept : Server → ℕ → List ℕ → Main → Option Server
accept s fd ip accepting = some (record s { main = holding fd ip })
accept s fd ip (holding fd' ip') = none
accept s fd ip (rejecting fd' ip') = none
accept s fd ip (starting fd' ip') = none

abbrev pub is_accepting : Main → Bool
is_accepting accepting = true
is_accepting (holding fd ip) = false
is_accepting (rejecting fd ip) = false
is_accepting (starting fd ip) = false

-- The kernel gives out no socket that a thread has not closed yet.
unfoldable pub is_open : Place → Bool
is_open naming = true
is_open refused = true
is_open finished = false
is_open (named buffer) = true
is_open (chatting i) = true
is_open (sending i) = true
is_open (ended i) = true
is_open (greeting i) = true
is_open (leaving i) = false
is_open (parting i) = false
is_open (heard i buffer) = true
is_open (speaking i message) = true

unfoldable pub in_use : List Thread → ℕ → Bool
unfolding is_open
in_use [] fd = false
in_use (h ∷ hs) fd = (h.fd == fd) && is_open h.place || in_use hs fd

unfoldable pub step : Server → Event → Option (Server × List Call)
unfolding continue receive continue_main accept in_use
step s (accepted fd ip) =
    if fd == 0 || in_use s.threads fd then none else (do s' ← accept s fd ip s.main; some (s', []))
step s accept_failed = if is_accepting s.main then some (s, []) else none
step s main_continues = continue_main s s.main
step s (received t bytes) =
    if can_receive bytes
    then (do h ← get_elem? s.threads t; s' ← receive s t h h.place bytes; some (s', []))
    else none
step s (continues t) = do h ← get_elem? s.threads t; continue s t h h.place

-- The server when it starts to accept.
abbrev pub start : Server
start = record {
  client_sockets = Chat.start.client_sockets;
  clients = Chat.start.clients;
  threads = [];
  main = accepting;
  lock = none;
  notices = [];
}

unfoldable pub run : Server → List Event → Option (Server × List Call)
unfolding step
run s [] = some (s, [])
run s (e ∷ es) = do (s', calls) ← step s e; (s'', more) ← run s' es; some (s'', calls ++ more)
