-- ===== src/Chat/Room.antt =====
-- What SocketServer.c promises, without its tables: a room in which each member has a name.
pub mod Names
pub mod Views
pub mod Refine
pub mod Agreement
pub mod Laws
use c_network_tools.Base.{
  ℕ, zero, suc, ◌+◌, Bool, true, false, List, [], ◌∷◌, ◌++◌, Option, some, none, ◌>>=◌, ◌==◌, ◌&&◌,
  ◌||◌, ltb, if◌then◌else◌, length, take, map, get_elem?, set, c_string,
}
use c_network_tools.Chat.{
  Event, accepted, accept_failed, received, cleared, Call, sent, closed, can_receive, max_clients,
}
use c_network_tools.Chat.Laws.{others}

-- One who was let in: with a socket and an address, then with a name too, then without a socket,
-- and at last without anything to do.
pub data Member : Type 0 where
  waiting : ℕ → List ℕ → Member
  talking : ℕ → List ℕ → List ℕ → Member
  closing gone : Member

-- The sockets of all who were ever let in, and the members in the same order.
pub record Room : Type 0 where
  pub joined : List ℕ
  pub members : List Member

-- The text that the others get, cut after 1073 bytes.
abbrev pub line : List ℕ → List ℕ → List ℕ → List ℕ
line name ip text = take 1073 (name ++ b' ' ∷ b'(' ∷ ip ++ b')' ∷ b':' ∷ b' ' ∷ c_string text)

abbrev pub become : Room → ℕ → Member → Room
become r t m = record r { members = set r.members t m }

-- A member says something, or is heard no more.
unfoldable pub hear : Room → ℕ → Member → Option (List ℕ) → Option (Room × List Call)
hear r t (waiting fd ip) none = some (become r t gone, closed fd ∷ [])
hear r t (waiting fd ip) (some text) =
    some (become r t (talking fd (take 49 (c_string text)) (take 15 (c_string ip))), [])
hear r t (talking fd name ip) none = some (become r t closing, closed fd ∷ [])
hear r t (talking fd name ip) (some text) =
    some (r, map (λ to. sent to (line name ip text)) (others fd r.joined))
hear r t closing b = none
hear r t gone b = none

unfoldable pub leave : Room → ℕ → Member → Option (Room × List Call)
leave r t closing = some (become r t gone, [])
leave r t (waiting fd ip) = none
leave r t (talking fd name ip) = none
leave r t gone = none

-- Ten are let in, ever.
unfoldable pub admit : Room → ℕ → List ℕ → Room × List Call
admit r fd ip =
    if ltb (length r.joined) max_clients
    then (record { joined = r.joined ++ fd ∷ []; members = r.members ++ waiting fd ip ∷ [] }, [])
    else (r, closed fd ∷ [])

abbrev pub has_socket : ℕ → Member → Bool
has_socket fd (waiting fd' ip) = fd' == fd
has_socket fd (talking fd' name ip) = fd' == fd
has_socket fd closing = false
has_socket fd gone = false

unfoldable pub present : List Member → ℕ → Bool
present [] fd = false
present (m ∷ ms) fd = has_socket fd m || present ms fd

unfoldable pub step : Room → Event → Option (Room × List Call)
unfolding hear leave admit present
step r (accepted fd ip) = if fd == 0 || present r.members fd then none else some (admit r fd ip)
step r accept_failed = some (r, [])
step r (received t bytes) =
    if can_receive bytes then (do m ← get_elem? r.members t; hear r t m bytes) else none
step r (cleared t) = do m ← get_elem? r.members t; leave r t m

abbrev pub empty : Room
empty = record { joined = []; members = [] }

unfoldable pub run : Room → List Event → Option (Room × List Call)
unfolding step
run r [] = some (r, [])
run r (e ∷ es) = do (r', calls) ← step r e; (r'', more) ← run r' es; some (r'', calls ++ more)
