-- ===== src/Traceroute/Route.antt =====
-- `traceroute` and `main` of Fingerprinting/Traceroute/traceroute.c.
pub mod Laws
use Prim.Native.String.{String}
use c_network_tools.Base.{
  ℕ, zero, suc, ◌+◌, Bool, true, false, List, [], ◌∷◌, ◌++◌, Option, some, none, ◌>>=◌, ByteOrder,
  ℤ, is_neg, ◌==◌, if◌then◌else◌, read_word,
}
use c_network_tools.Traceroute.Packet.{create_packet}

abbrev pub max_ttl : ℕ
max_ttl = 30

-- The answers of the system calls. What a call answers in the round of a TTL is a function of
-- the TTL, since each call is made once in a round.
pub record Network : Type 0 where
  pub gethostbyname : List ℕ → Option ℕ
  pub socket : ℤ
  pub sendto : ℕ → ℤ
  pub recvfrom : ℕ → ℤ
  pub r_addr : ℕ → ℕ

-- What the program does, in order.
pub data Event : Type 0 where
  host_not_found socket_error send_failed : Event
  sent : ℕ → List ℕ → ℕ → Event
  timed_out : ℕ → Event
  hop : ℕ → ℕ → Event
  closed : Event

-- The line that is printed for an answer, or for its absence.
unfoldable pub answer : Network → ℕ → Event
answer net ttl = if is_neg (net.recvfrom ttl) then timed_out ttl else hop ttl (net.r_addr ttl)

-- The test before `break`.
unfoldable pub reached : Network → ℕ → ℕ → Bool
reached net dest ttl = if is_neg (net.recvfrom ttl) then false else net.r_addr ttl == dest

module _ (o : ByteOrder) (inet_addr : String → ℕ) (net : Network) (dest : ℕ) where
  -- The loop, with `left` rounds to go; behind it the socket is closed. `none` is a read outside
  -- a buffer in `create_packet`.
  unfoldable pub rounds : ℕ → ℕ → Option (List Event)
  unfolding answer reached
  rounds zero ttl = some (closed ∷ [])
  rounds (suc left) ttl =
      let more = rounds left (ttl + 1) in
      let rest = if reached net dest ttl then some (closed ∷ []) else more in
      do
        (packet, size) ← create_packet o inet_addr ttl
        if is_neg (net.sendto ttl)
            then some (sent ttl packet size ∷ send_failed ∷ [])
            else (do events ← rest; some (sent ttl packet size ∷ answer net ttl ∷ events))

-- `dest_addr` and the socket, then the loop from TTL 1.
unfoldable pub traceroute : ByteOrder → (String → ℕ) → Network → List ℕ → Option (List Event)
unfolding rounds
traceroute o inet_addr net hostname = elim (net.gethostbyname hostname) [
  | none ↦ some (host_not_found ∷ [])
  | some dest ↦
      if is_neg net.socket then some (socket_error ∷ []) else rounds o inet_addr net dest max_ttl 1
]

-- `word` is what `scanf` reads into the 256 bytes of `domain`.
unfoldable pub main : ByteOrder → (String → ℕ) → Network → List ℕ → Option (List Event)
unfolding traceroute
main o inet_addr net word = do domain ← read_word 256 word; traceroute o inet_addr net domain
