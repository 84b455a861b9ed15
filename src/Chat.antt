-- ===== src/Chat.antt =====
-- Server-Client Relationship/SocketServer.c. An event is what one thread does between two points
-- where another one may run; a run of the server is any sequence of events that can happen.
pub mod Slots
pub mod Inbox
pub mod Records
pub mod Owned
pub mod Messages
pub mod Places
pub mod Counted
pub mod Room
pub mod Threads
pub mod Serving
pub mod Laws
use c_network_tools.Base.{
  ℕ, zero, suc, ◌+◌, ◌-◌, Bool, true, false, List, [], ◌∷◌, ◌++◌, Option, some, none, ◌>>=◌, ◌==◌,
  ◌&&◌, ◌||◌, not, ltb, if◌then◌else◌, length, take, replicate, get_elem?, set, write, c_string,
}

abbrev pub max_clients : ℕ
max_clients = 10

abbrev pub buffer_size : ℕ
buffer_size = 1024

-- `ClientInfo`, with the 50 bytes of `name` and the 16 of `ip`.
pub record ClientInfo : Type 0 where
  pub socket : ℕ
  pub name : List ℕ
  pub ip : List ℕ

-- Where a thread of `handleClient` stands: before the name has come, in the loop with its
-- `clientIndex`, behind the `close` that follows the loop, or at its end.
pub data Phase : Type 0 where
  naming finished : Phase
  chatting leaving : ℕ → Phase

pub record Handler : Type 0 where
  pub fd : ℕ
  pub ip : List ℕ
  pub phase : Phase

-- The two tables, and the threads in the order in which they were made.
pub record Chat : Type 0 where
  pub client_sockets : List ℕ
  pub clients : List ClientInfo
  pub handlers : List Handler

-- The calls of `send` and `close`.
pub data Call : Type 0 where
  sent : ℕ → List ℕ → Call
  closed : ℕ → Call

-- `accept` returns a socket or fails; `recv` in a thread returns bytes, or `none` for zero or a
-- negative number; a thread clears its record after the `close`.
pub data Event : Type 0 where
  accepted : ℕ → List ℕ → Event
  accept_failed : Event
  received : ℕ → Option (List ℕ) → Event
  cleared : ℕ → Event

-- `broadcastMessage`
unfoldable pub broadcast_message : List ℕ → ℕ → List ℕ → List Call
broadcast_message [] sender_fd message = []
broadcast_message (s ∷ ss) sender_fd message =
    let rest = broadcast_message ss sender_fd message in
    if not (s == 0) && not (s == sender_fd) then sent s message ∷ rest else rest

-- The loop of `main` that looks for a free place; `none` if it adds nothing.
unfoldable pub add_socket : List ℕ → ℕ → Option (List ℕ)
add_socket [] fd = none
add_socket (s ∷ ss) fd =
    let rest = add_socket ss fd in
    if s == 0 then some (fd ∷ ss) else (do ss' ← rest; some (s ∷ ss'))

-- `strncpy(dest, src, n)`
unfoldable pub strncpy : List ℕ → List ℕ → ℕ → List ℕ
unfolding c_string
strncpy dest src n = write dest 0 (take n (c_string src ++ replicate n 0))

-- The loop of `handleClient` that looks for a free record, with its index.
unfoldable pub register : List ClientInfo → ℕ → List ℕ → List ℕ → Option (List ClientInfo × ℕ)
unfolding strncpy
register [] fd buffer ip = none
register (c ∷ cs) fd buffer ip =
    let rest = register cs fd buffer ip in
    if c.socket == 0
    then some
        (record { socket = fd; name = strncpy c.name buffer 49; ip = strncpy c.ip ip 15 } ∷ cs, 0)
    else (do (cs', i) ← rest; some (c ∷ cs', suc i))

-- `snprintf(message, sizeof(message), "%s (%s): %s", ...)`
unfoldable pub format_message : ClientInfo → List ℕ → List ℕ
unfolding c_string
format_message c buffer =
    take (buffer_size + 50 - 1)
      (c_string c.name ++ b' ' ∷ b'(' ∷ c_string c.ip ++ b')' ∷ b':' ∷ b' ' ∷ c_string buffer)

-- A thread moves on.
abbrev pub move : Chat → ℕ → Handler → Phase → Chat
move s t h phase = record s { handlers = set s.handlers t (record h { phase = phase }) }

-- `handleClient` after a `recv`; in the phases without a `recv` this cannot happen.
unfoldable pub handle_received :
    Chat → ℕ → Handler → Phase → Option (List ℕ) → Option (Chat × List Call)
unfolding register format_message broadcast_message
handle_received s t h naming none = some (move s t h finished, closed h.fd ∷ [])
handle_received s t h naming (some buffer) = elim (register s.clients h.fd buffer h.ip) [
  | none ↦ some (move s t h finished, closed h.fd ∷ [])
  | some (clients, i) ↦ some (move (record s { clients = clients }) t h (chatting i), [])
]
handle_received s t h (chatting i) none = some (move s t h (leaving i), closed h.fd ∷ [])
handle_received s t h (chatting i) (some buffer) = do
  client ← get_elem? s.clients i
  some (s, broadcast_message s.client_sockets h.fd (format_message client buffer))
handle_received s t h (leaving i) r = none
handle_received s t h finished r = none

-- The end of `handleClient`.
unfoldable pub handle_cleared : Chat → ℕ → Handler → Phase → Option (Chat × List Call)
handle_cleared s t h (leaving i) = do
  client ← get_elem? s.clients i
  some (
    move (record s { clients = set s.clients i (record client { socket = 0 }) }) t h finished,
    [],
  )
handle_cleared s t h naming = none
handle_cleared s t h (chatting i) = none
handle_cleared s t h finished = none

-- A round of the loop of `main` with a socket from `accept`.
unfoldable pub handle_accepted : Chat → ℕ → List ℕ → Chat × List Call
unfolding add_socket
handle_accepted s fd ip = elim (add_socket s.client_sockets fd) [
  | none ↦ (s, closed fd ∷ [])
  | some sockets ↦ (
    record s {
      client_sockets = sockets;
      handlers = s.handlers ++ record { fd = fd; ip = ip; phase = naming } ∷ [];
    },
    [],
  )
]

-- Whether a thread's socket is open: the kernel does not give out such a socket again.
unfoldable pub is_open : Phase → Bool
is_open naming = true
is_open (chatting i) = true
is_open (leaving i) = false
is_open finished = false

unfoldable pub in_use : List Handler → ℕ → Bool
unfolding is_open
in_use [] fd = false
in_use (h ∷ hs) fd = (h.fd == fd) && is_open h.phase || in_use hs fd

-- What `recv` can return: between 1 and `BUFFER_SIZE - 1` bytes, or nothing.
abbrev pub can_receive : Option (List ℕ) → Bool
can_receive none = true
can_receive (some buffer) = ltb 0 (length buffer) && ltb (length buffer) buffer_size

-- `none` is an event that cannot happen. Sockets of clients are not 0, which is the standard input.
unfoldable pub step : Chat → Event → Option (Chat × List Call)
unfolding handle_received handle_cleared handle_accepted in_use
step s (accepted fd ip) =
    if fd == 0 || in_use s.handlers fd then none else some (handle_accepted s fd ip)
step s accept_failed = some (s, [])
step s (received t bytes) =
    if can_receive bytes
    then (do h ← get_elem? s.handlers t; handle_received s t h h.phase bytes)
    else none
step s (cleared t) = do h ← get_elem? s.handlers t; handle_cleared s t h h.phase

-- The server's globals when it starts to accept.
abbrev pub start : Chat
start = record {
  client_sockets = replicate max_clients 0;
  clients =
      replicate max_clients (record { socket = 0; name = replicate 50 0; ip = replicate 16 0 });
  handlers = [];
}

unfoldable pub run : Chat → List Event → Option (Chat × List Call)
unfolding step
run s [] = some (s, [])
run s (e ∷ es) = do (s', calls) ← step s e; (s'', more) ← run s' es; some (s'', calls ++ more)
