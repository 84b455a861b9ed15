-- ===== src/Tests/Chats.antt =====
-- Runs of the chat server.
use c_network_tools.Base.{
  ℕ, ◌+◌, ◌≤◌, ◌≡◌, refl, List, [], ◌∷◌, Option, some, none, zero, suc, arith, get_elem?, take, map,
  false, replicate, length,
}
use c_network_tools.Chat.{
  ClientInfo, Event, accepted, received, cleared, Chat, Call, sent, closed, step, run, start,
  Handler, naming, chatting, max_clients, format_message, move, in_use,
}
use c_network_tools.Chat.Slots.{accepted_fds}
use c_network_tools.Chat.Laws.{others, full_for_ever}
use c_network_tools.Chat.Owned.{IsFirst, Takes, reached-Owned}
use c_network_tools.Chat.Records.{Owned}
use c_network_tools.Chat.Messages.{received-others}
use c_network_tools.Chat.Counted.{naming-registers}

abbrev state_of : Option (Chat × List Call) → Chat
state_of none = start
state_of (some (s, calls)) = s

abbrev calls_of : Option (Chat × List Call) → List Call
calls_of none = []
calls_of (some (s, calls)) = calls

-- Two clients, of whom the first has the name `A` and the second the name `B`; the first one
-- leaves, and its socket comes again for a third one.
abbrev talk : List Event
talk =
    accepted 4 (b'1' ∷ [])
    ∷ accepted 5 (b'2' ∷ [])
    ∷ received 0 (some (65 ∷ []))
    ∷ received 1 (some (66 ∷ []))
    ∷ received 0 none
    ∷ cleared 0
    ∷ accepted 4 (b'3' ∷ [])
    ∷ []

abbrev talked : Chat
talked = state_of (run start talk)

talk_runs : run start talk ≡ some (talked, closed 4 ∷ [])
unfolding run
talk_runs = refl

-- The third client gets each message twice.
talk_twice :
    step talked (received 1 (some (104 ∷ [])))
    ≡ some (
      talked,
      sent 4 (66 ∷ b' ' ∷ b'(' ∷ b'2' ∷ b')' ∷ b':' ∷ b' ' ∷ 104 ∷ [])
          ∷ sent 4 (66 ∷ b' ' ∷ b'(' ∷ b'2' ∷ b')' ∷ b':' ∷ b' ' ∷ 104 ∷ [])
          ∷ [],
    )
unfolding run step
talk_twice = refl

reached-Owned_example : Owned talked
reached-Owned_example = reached-Owned talk talked (closed 4 ∷ []) talk_runs

abbrev second : Handler
second = record { fd = 5; ip = b'2' ∷ []; phase = chatting 1 }

abbrev third : Handler
third = record { fd = 4; ip = b'3' ∷ []; phase = naming }

talked-second : get_elem? talked.handlers 1 ≡ some second
unfolding run
talked-second = refl

talked-third : get_elem? talked.handlers 2 ≡ some third
unfolding run
talked-third = refl

received-others_example :
    (c : ClientInfo) × (get_elem? talked.clients 1 ≡ some c)
    × (c.socket ≡ 5)
    × (step talked (received 1 (some (104 ∷ [])))
        ≡ some (
          talked,
          map
              (λ fd. sent fd (format_message c (104 ∷ [])))
              (others 5 (take max_clients (accepted_fds talk))),
        ))
received-others_example =
    received-others talk talked (closed 4 ∷ []) 1 1 second (104 ∷ []) talk_runs talked-second refl
      refl

naming-registers_example :
    (clients : List ClientInfo) × (i : ℕ) × Takes talked.clients 4
      (67 ∷ [])
      (b'3' ∷ [])
      (clients, i)
    × IsFirst talked.clients (clients, i)
    × (step talked (received 2 (some (67 ∷ [])))
        ≡ some (move (record talked { clients = clients }) 2 third (chatting i), []))
naming-registers_example =
    naming-registers talk talked (closed 4 ∷ []) 2 third (67 ∷ []) talk_runs talked-third refl refl

-- Ten clients come, and each leaves before the next one comes.
abbrev visits : ℕ → ℕ → List Event
visits zero t = []
visits (suc n) t = accepted 4 (b'1' ∷ []) ∷ received t none ∷ visits n (t + 1)

abbrev visited : Chat
visited = state_of (run start (visits 10 0))

run-visits : run start (visits 10 0) ≡ some (visited, replicate 10 (closed 4))
unfolding run
run-visits = refl

full_for_ever_example : step visited (accepted 4 (b'1' ∷ [])) ≡ some (visited, closed 4 ∷ [])
full_for_ever_example =
    full_for_ever (visits 10 0) visited (replicate 10 (closed 4)) 4 (b'1' ∷ []) run-visits ten
      (omega arith) free
  where
    ten : 10 ≤ length (accepted_fds (visits 10 0))
    ten = unfold accepted_fds in omega arith

    free : in_use visited.handlers 4 ≡ false
    free = unfold run in unfold in_use in refl
