-- ===== src/Tests/Threads.antt =====
-- Threads of the chat server that take turns while one of them holds the mutex.
use c_network_tools.Base.{
  ℕ, Option, pos, ◌+◌, ◌-◌, ◌≤◌, ◌≡◌, refl, drop, get_elem?, List, [], ◌∷◌, ◌++◌, some, none,
  replicate,
}
use c_network_tools.Chat.{Call, closed, sent, ClientInfo, broadcast_message, max_clients}
use c_network_tools.Chat
use c_network_tools.Chat.Room
use c_network_tools.Chat.Room.Laws.{observed}
use c_network_tools.Chat.Threads.{
  Event, accepted, main_continues, received, continues, Server, step, run, start, leaving, sending,
  chatting, parting, finished, connected, disconnected, Notice, Thread, Broadcast, go,
}
use c_network_tools.Chat.Threads.View.{shown, sends, closes}
use c_network_tools.Chat.Threads.Explained.{unsent}
use c_network_tools.Chat.Serving.{Listener, main, serving, main-explained, main-heard}
use c_network_tools.Chat.Inbox.{inbox}
use c_network_tools.Chat.Threads.Spoken.{heard_by, spoken}
use c_network_tools.Chat.Threads.Exclusion.{step-alone}
use c_network_tools.Chat.Threads.Release.{run-released}
use c_network_tools.Chat.Threads.Private.{step-spared}
use c_network_tools.Chat.Threads.Waiting.{Served, run-Served}

-- The second client speaks, and the first one leaves before all the places were looked at.
abbrev turns : List Event
turns =
    accepted 4 (b'1' ∷ [])
    ∷ main_continues
    ∷ main_continues
    ∷ accepted 5 (b'2' ∷ [])
    ∷ main_continues
    ∷ main_continues
    ∷ received 0 (some (b'A' ∷ []))
    ∷ continues 0
    ∷ continues 0
    ∷ received 1 (some (b'B' ∷ []))
    ∷ continues 1
    ∷ continues 1
    ∷ received 1 (some (b'h' ∷ []))
    ∷ continues 1
    ∷ continues 1
    ∷ received 0 none
    ∷ continues 1
    ∷ continues 0
    ∷ []

abbrev known : ℕ → ℕ → ℕ → ClientInfo
known fd name ip = record { socket = fd; name = name ∷ replicate 49 0; ip = ip ∷ replicate 15 0 }

abbrev text : List ℕ
text = b'B' ∷ b' ' ∷ b'(' ∷ b'2' ∷ b')' ∷ b':' ∷ b' ' ∷ b'h' ∷ []

abbrev left_behind : Server
left_behind = record {
  client_sockets = 4 ∷ 5 ∷ replicate 8 0;
  clients =
      known 4 b'A' b'1'
      ∷ known 5 b'B' b'2'
      ∷ replicate 8 (record { socket = 0; name = replicate 50 0; ip = replicate 16 0 });
  threads =
      record { fd = 4; ip = b'1' ∷ []; place = leaving 0 }
      ∷ record { fd = 5; ip = b'2' ∷ []; place = sending 1 }
      ∷ [];
  main = Chat.Threads.accepting;
  lock = some (record { thread = 1; sender_fd = 5; message = text; next = 1 });
  notices = connected (b'A' ∷ []) (b'1' ∷ []) ∷ connected (b'B' ∷ []) (b'2' ∷ []) ∷ [];
}

turns_taken : run start turns ≡ some (left_behind, sent 4 text ∷ closed 4 ∷ [])
unfolding run Chat.add_socket Chat.register Chat.format_message
turns_taken = refl

abbrev listener : Listener
listener = record { socket = pos 3; bind = pos 0; listen = pos 0 }

serves : main listener turns ≡ some (serving left_behind (sent 4 text ∷ closed 4 ∷ []))
unfolding main
serves = rw turns_taken refl

main-explained_example :
    (events : List Chat.Event) × (told : List Call) × (Chat.run Chat.start events
      ≡ some (shown left_behind, told))
    × (observed (Room.run Room.empty events) ≡ some told)
    × (closes told ≡ 4 ∷ [])
    × (sends told ≡ sent 4 text ∷ unsent left_behind.client_sockets left_behind.lock)
main-explained_example =
    main-explained listener turns left_behind (sent 4 text ∷ closed 4 ∷ []) serves

-- The first client is sent the text; the second one, whose text it is, is sent nothing.
main-heard_example :
    inbox 4 (sent 4 text ∷ closed 4 ∷ unsent left_behind.client_sockets left_behind.lock)
    ≡ heard_by 4 (spoken start turns)
main-heard_example = main-heard listener turns left_behind (sent 4 text ∷ closed 4 ∷ []) serves 4

one_utterance :
    spoken start turns ≡ record { speaker = 5; text = text; table = 4 ∷ 5 ∷ replicate 8 0 } ∷ []
unfolding spoken step Chat.add_socket Chat.register Chat.format_message
one_utterance = refl

abbrev speech : Broadcast
speech = record { thread = 1; sender_fd = 5; message = text; next = 1 }

-- A third client comes while the second one is in `broadcastMessage`.
third_comes :
    step left_behind (accepted 4 (b'3' ∷ []))
    ≡ some (record left_behind { main = Chat.Threads.holding 4 (b'3' ∷ []) }, [])
unfolding step
third_comes = refl

step-alone_example :
    (left_behind.client_sockets ≡ left_behind.client_sockets)
    × (left_behind.clients ≡ left_behind.clients)
    × (left_behind.lock ≡ left_behind.lock)
    × (sends [] ≡ [])
step-alone_example =
    step-alone turns left_behind (record left_behind { main = Chat.Threads.holding 4 (b'3' ∷ []) })
      (sent 4 text ∷ closed 4 ∷ []) [] speech (accepted 4 (b'3' ∷ [])) turns_taken refl (λ e. cc)
      third_comes

run-released_example :
    (h : Thread) × (i : ℕ) × (get_elem? left_behind.threads 1 ≡ some h)
    × (h.place ≡ sending i)
    × (run left_behind (replicate (max_clients + 1 - 1) (continues 1))
        ≡ some (
          record (go left_behind 1 h (chatting i)) { lock = none },
          broadcast_message (drop 1 left_behind.client_sockets) 5 text,
        ))
run-released_example =
    run-released turns left_behind (sent 4 text ∷ closed 4 ∷ []) speech turns_taken refl

-- The first thread waits to clear its record.
run-Served_example :
    (u n : ℕ) × (n ≤ max_clients + 1)
    × (r : Server × List Call) × (run left_behind (replicate n (continues u) ++ continues 0 ∷ [])
        ≡ some r)
    × Served 0 r.0
run-Served_example =
    run-Served turns left_behind (sent 4 text ∷ closed 4 ∷ []) 0
      (record { fd = 4; ip = b'1' ∷ []; place = leaving 0 }) turns_taken refl refl

-- The state behind the messages of the second client, in which the first one clears its record.
abbrev behind_messages : Server
behind_messages =
    record (go left_behind 1 (record { fd = 5; ip = b'2' ∷ []; place = sending 1 }) (chatting 1)) {
      lock = none;
    }

abbrev cleared : Server
cleared =
    record (go behind_messages 0 (record { fd = 4; ip = b'1' ∷ []; place = leaving 0 })
      (parting 0)) {
        clients =
            record (known 4 b'A' b'1') { socket = 0 }
            ∷ known 5 b'B' b'2'
            ∷ replicate 8 (record { socket = 0; name = replicate 50 0; ip = replicate 16 0 });
      }

abbrev all_turns : List Event
all_turns = turns ++ replicate 10 (continues 1)

all_turns_taken : run start all_turns ≡ some (behind_messages, sent 4 text ∷ closed 4 ∷ [])
unfolding run Chat.add_socket Chat.register Chat.format_message
all_turns_taken = refl

first_clears : step behind_messages (continues 0) ≡ some (cleared, [])
unfolding step
first_clears = refl

step-spared_example : get_elem? cleared.clients 1 ≡ get_elem? behind_messages.clients 1
step-spared_example =
    step-spared all_turns behind_messages cleared (sent 4 text ∷ closed 4 ∷ []) [] 1 1
      (record { fd = 5; ip = b'2' ∷ []; place = chatting 1 }) (continues 0) all_turns_taken refl
      refl (λ e. cc) first_clears

-- A third client comes, and gets the record of the first one before that one's last line, which
-- prints the name of the third one.
abbrev meanwhile : List Event
meanwhile =
    accepted 4 (b'3' ∷ [])
    ∷ main_continues
    ∷ main_continues
    ∷ received 2 (some (b'C' ∷ []))
    ∷ continues 2
    ∷ continues 0
    ∷ []

abbrev notices_of : Option (Server × List Call) → List Notice
notices_of none = []
notices_of (some r) = r.0.notices

other_name_printed :
    notices_of (run start (all_turns ++ continues 0 ∷ meanwhile))
    ≡ connected (b'A' ∷ []) (b'1' ∷ [])
      ∷ connected (b'B' ∷ []) (b'2' ∷ [])
      ∷ disconnected (b'C' ∷ []) (b'3' ∷ [])
      ∷ []
unfolding run Chat.add_socket Chat.register Chat.format_message
other_name_printed = refl
