-- ===== src/Chat/Inbox.antt =====
-- What the server of SocketServer.c sends to one socket.
use c_network_tools.Base.{ℕ, suc, ◌≡◌, refl, List, [], ◌∷◌, ◌++◌, arith, ◌==◌, if◌then◌else◌}
use c_network_tools.Chat.{Call, sent, closed}

-- What is sent to a socket, and how often a number stands in a list.
abbrev pub inbox : ℕ → List Call → List (List ℕ)
inbox to [] = []
inbox to (sent fd text ∷ calls) =
    let rest = inbox to calls in if fd == to then text ∷ rest else rest
inbox to (closed fd ∷ calls) = inbox to calls

abbrev pub count : ℕ → List ℕ → ℕ
count x [] = 0
count x (y ∷ ys) = let rest = count x ys in if y == x then suc rest else rest

pub inbox-append : (to : ℕ) (xs ys : List Call) → inbox to (xs ++ ys) ≡ inbox to xs ++ inbox to ys
inbox-append to [] ys = refl
inbox-append to (sent fd text ∷ xs) ys = ground (arith, inbox-append to xs ys)
inbox-append to (closed fd ∷ xs) ys = inbox-append to xs ys
