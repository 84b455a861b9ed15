-- ===== src/Traceroute/Route/Laws.antt =====
-- The run of `traceroute`: which TTLs are tried, and where it stops.
use Prim.Native.String.{String}
use c_network_tools.Base.{
  ℕ, zero, suc, ◌+◌, ◌<◌, ◌≡◌, refl, true, false, Bool-cases, inl, inr, List, [], ◌∷◌, ◌++◌, Option,
  some, ◌>>=◌, length, ◌≤◌, read_word-fits, ByteOrder, is_neg, if◌then◌else◌, arith,
}
use c_network_tools.Traceroute.Packet.{create_packet}
use c_network_tools.Traceroute.Packet.Result.{create_packet-IsSound}
use c_network_tools.Traceroute.Route.{
  Network, Event, sent, send_failed, closed, answer, reached, rounds, traceroute, main, max_ttl,
}

module _ (o : ByteOrder) (inet_addr : String → ℕ) where
  -- The packet that is sent with a TTL.
  pub packet_for : ℕ → List ℕ
  packet_for ttl = (create_packet-IsSound o inet_addr ttl).packet

  create_packet-packet_for : (ttl : ℕ) → create_packet o inet_addr ttl ≡ some (packet_for ttl, 28)
  unfolding packet_for
  create_packet-packet_for ttl = (create_packet-IsSound o inet_addr ttl).returns

module _ (o : ByteOrder) (inet_addr : String → ℕ) (net : Network) (dest : ℕ) where
  -- `n` whole rounds from a TTL on: the packet and the line for its answer.
  abbrev pub full_rounds : ℕ → ℕ → List Event
  full_rounds zero ttl = []
  full_rounds (suc n) ttl =
      sent ttl (packet_for o inet_addr ttl) 28 ∷ answer net ttl ∷ full_rounds n (ttl + 1)

  -- Sending works, and the destination does not answer, in `n` rounds from a TTL on.
  abbrev pub Passes : ℕ → ℕ → Type 0
  Passes zero ttl = Unit
  Passes (suc n) ttl =
      (is_neg (net.sendto ttl) ≡ false) × (reached net dest ttl ≡ false) × Passes n (ttl + 1)

  rounds-suc :
      (left ttl : ℕ)
      → is_neg (net.sendto ttl) ≡ false
      → rounds o inet_addr net dest (suc left) ttl ≡ (
          (if reached net dest ttl
            then some (closed ∷ [])
            else rounds o inet_addr net dest left (ttl + 1))
          >>= λ events. some (sent ttl (packet_for o inet_addr ttl) 28 ∷ answer net ttl ∷ events))
  unfolding rounds
  rounds-suc left ttl e = rw (create_packet-packet_for, e)

  -- How a run of `left` rounds from a TTL on ends, after `n` rounds that pass: with an answer from
  -- the destination, with no round left, or with a packet that cannot be sent.
  pub data Ends (left ttl n : ℕ) : List Event → Type 0 where
    arrived :
        (at : ℕ)
        → at ≡ ttl + n
        → n < left
        → is_neg (net.sendto at) ≡ false
        → reached net dest at ≡ true
        → Ends left ttl n (full_rounds (suc n) ttl ++ closed ∷ [])
    gave_up : n ≡ left → Ends left ttl n (full_rounds n ttl ++ closed ∷ [])
    broke_off :
        (at : ℕ)
        → at ≡ ttl + n
        → n < left
        → is_neg (net.sendto at) ≡ true
        → Ends left ttl n
            (full_rounds n ttl ++ sent at (packet_for o inet_addr at) 28 ∷ send_failed ∷ [])

  abbrev pub Run : ℕ → ℕ → Option (List Event) → Type 0
  Run left ttl result =
      (n : ℕ) × Passes n ttl
      × (events : List Event) × (result ≡ some events)
      × Ends left ttl n events

  Run-suc :
      (left ttl : ℕ)
      → is_neg (net.sendto ttl) ≡ false
      → reached net dest ttl ≡ false
      → Run left (ttl + 1) (rounds o inet_addr net dest left (ttl + 1))
      → Run (suc left) ttl (rounds o inet_addr net dest (suc left) ttl)
  Run-suc left ttl e r (n, h, events, q, ends) =
      (suc n, (e, r, h), _, rw (rounds-suc left ttl e, r, q), ends_suc ends)
    where
      ends_suc :
          {es : List Event}
          → Ends left (ttl + 1) n es
          → Ends
              (suc left)
              ttl
              (suc n)
              (sent ttl (packet_for o inet_addr ttl) 28 ∷ answer net ttl ∷ es)
      ends_suc (arrived at l lt s d) = arrived at (omega arith) (omega arith) s d
      ends_suc (gave_up eq) = gave_up (omega arith)
      ends_suc (broke_off at l lt s) = broke_off at (omega arith) (omega arith) s

  -- Every run of the loop is of that form.
  pub rounds-Run : (left ttl : ℕ) → Run left ttl (rounds o inet_addr net dest left ttl)
  rounds-Run zero ttl = (0, tt, closed ∷ [], unfold rounds in refl, gave_up refl)
  rounds-Run (suc left) ttl = elim (Bool-cases (is_neg (net.sendto ttl))) [
    | inl failed ↦ (0, tt, _, rounds_fail failed, broke_off ttl (omega arith) (omega arith) failed)
    | inr e ↦ elim (Bool-cases (reached net dest ttl)) [
      | inl there ↦ (
        0,
        tt,
        _,
        rw (rounds-suc left ttl e, there),
        arrived ttl (omega arith) (omega arith) e there,
      )
      | inr further ↦ Run-suc left ttl e further (rounds-Run left (ttl + 1))
    ]
  ]
    where
      rounds_fail :
          is_neg (net.sendto ttl) ≡ true
          → rounds o inet_addr net dest (suc left) ttl
            ≡ some (sent ttl (packet_for o inet_addr ttl) 28 ∷ send_failed ∷ [])
      rounds_fail failed = unfold rounds in rw (create_packet-packet_for, failed)

-- On a word of at most 255 characters that names a host, and with a socket, `main` terminates and no
-- packet makes it fault. It tries the TTLs 1, 2, ... with a packet each, prints a line for each
-- answer or time-out, and stops at the first answer from the destination, at a packet that cannot
-- be sent, or after 30 rounds; it closes the socket but where a packet could not be sent.
pub main-Run :
    (o : ByteOrder) (inet_addr : String → ℕ) (net : Network) (word : List ℕ) (dest : ℕ)
    → length word ≤ 255
    → net.gethostbyname word ≡ some dest
    → is_neg net.socket ≡ false
    → Run o inet_addr net dest max_ttl 1 (main o inet_addr net word)
unfolding main
main-Run o inet_addr net word dest short found made =
    rw (read_word-fits 256 word (omega (arith, short)), found, made, traceroute)
      (rounds-Run o inet_addr net dest max_ttl 1)
