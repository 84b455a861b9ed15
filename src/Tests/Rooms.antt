-- ===== src/Tests/Rooms.antt =====
-- The chat server against the room, and a client that talks to it.
use c_network_tools.Base.{
  map, ℕ, ◌≡◌, refl, List, [], ◌∷◌, ◌++◌, some, none, arith, pos, replicate, take, c_string,
}
use c_network_tools.Chat.{Event, accepted, received, cleared, Call, closed, sent, start}
use c_network_tools.Chat
use c_network_tools.Chat.Room
use c_network_tools.Chat.Room.{Room, empty, waiting, talking, closing}
use c_network_tools.Chat.Room.Laws.{observed, run-observed}
use c_network_tools.Chat.Laws.{others}
use c_network_tools.Client.{World, main, left, End, receive_messages}
use c_network_tools.Client.Lines.{lines}
use c_network_tools.Client.Laws.{Works, main-left, until_exit, typed}
use c_network_tools.Client.Delivery.{session-printed, said}
use c_network_tools.Chat.Inbox.{inbox}
use c_network_tools.Client.Session.{session-calls, heard, spread}

abbrev visits : List Event
visits =
    accepted 4 (b'1' ∷ [])
    ∷ accepted 5 (b'2' ∷ [])
    ∷ received 0 (some (b'A' ∷ []))
    ∷ received 1 (some (b'B' ∷ []))
    ∷ received 1 (some (b'h' ∷ []))
    ∷ received 1 none
    ∷ cleared 1
    ∷ accepted 5 (b'3' ∷ [])
    ∷ []

run-observed_example : observed (Chat.run start visits) ≡ observed (Room.run empty visits)
run-observed_example = run-observed visits

-- The third client says who it is, something, `exit` and something else.
abbrev name : List ℕ
name = b'C' ∷ []

abbrev texts : List (List ℕ)
texts = (b'o' ∷ b'k' ∷ []) ∷ (b'e' ∷ b'x' ∷ b'i' ∷ b't' ∷ []) ∷ (b'n' ∷ b'o' ∷ []) ∷ []

abbrev client : World
client = record {
  socket = pos 3;
  inet_pton = pos 1;
  connect = pos 0;
  pthread_create = pos 0;
  send = λ k. pos 1;
  input = lines (name ∷ texts);
}

abbrev garbage : List ℕ
garbage = replicate 50 7

client-Works : Works garbage client name texts
client-Works = record {
  buffer = refl;
  made = refl;
  valid = refl;
  connected = refl;
  threaded = refl;
  sending = λ k. refl;
  named = omega arith;
  said = omega arith;
  input = refl;
}

main-left_example : main garbage client ≡ some (left (take 49 name) (until_exit (typed name texts)))
main-left_example = main-left garbage client name texts client-Works

abbrev room : Room
room = record {
  joined = 4 ∷ 5 ∷ 5 ∷ [];
  members = talking 4 (b'A' ∷ []) (b'1' ∷ []) ∷ Room.gone ∷ waiting 5 (b'3' ∷ []) ∷ [];
}

abbrev calls : List Call
calls = sent 4 (b'B' ∷ b' ' ∷ b'(' ∷ b'2' ∷ b')' ∷ b':' ∷ b' ' ∷ b'h' ∷ []) ∷ closed 5 ∷ []

room_reached : Room.run empty visits ≡ some (room, calls)
unfolding Room.run c_string
room_reached = refl

session-calls_example :
    (nickname : List ℕ) × (sends : List (List ℕ)) × (main garbage client
      ≡ some (left nickname sends))
    × (observed (Chat.run start (visits ++ heard 2 (nickname ∷ sends)))
        ≡ some (
            calls
            ++ spread
                (others 5 (4 ∷ 5 ∷ 5 ∷ []))
                name
                (take 15 (c_string (b'3' ∷ [])))
                (until_exit texts)))
session-calls_example =
    session-calls visits room calls 2 5 (b'3' ∷ []) garbage name client texts room_reached refl
      client-Works (omega arith) (refl, (refl, tt))

-- The first client prints `C (3): ok`.
session-printed_example :
    (nickname : List ℕ) × (sends : List (List ℕ)) × (more : List Call) × (main garbage client
      ≡ some (left nickname sends))
    × (observed (Chat.run start (visits ++ heard 2 (nickname ∷ sends))) ≡ some (calls ++ more))
    × (receive_messages (map some (inbox 4 more))
        ≡ (map (said name (take 15 (c_string (b'3' ∷ [])))) (until_exit texts), End.waiting))
session-printed_example =
    session-printed visits room calls 2 5 4 (b'3' ∷ []) garbage name client texts room_reached refl
      client-Works (omega arith) (refl, (refl, tt)) refl (unfold c_string in (omega arith, tt))
