-- ===== src/Dns/Host/Laws.antt =====
-- A run of host.c against a name server that answers.
use c_network_tools.Base.{
  ℕ, ◌+◌, ◌≤◌, ◌<◌, ◌≡◌, ◌≢◌, refl, false, List, ◌∷◌, ◌++◌, some, none, length, drop, take, arith,
  store-write, write_start, length-take, NoNul, append_assoc, ByteOrder, read_word-fits, is_neg,
}
use c_network_tools.Dns.Dig.{Server, finished}
use c_network_tools.Dns.Dig.Query.{build_query-IsShifted}
use c_network_tools.Dns.Dig.Reply.{reply, parse_response-reply}
use c_network_tools.Dns.Host.{main}

module _ (o : ByteOrder) (header qname question : List ℕ) (pointer_high pointer_low type_high : ℕ)
    (rest : List ℕ) where
  abbrev pub answer : List ℕ
  answer = reply header qname question pointer_high pointer_low (type_high ∷ rest)

  -- What stands behind the answer in the buffer belongs to the rest of it.
  answer-append :
      (old : List ℕ)
      → answer ++ old
        ≡ reply header qname question pointer_high pointer_low (type_high ∷ (rest ++ old))
  answer-append old = simp append_assoc

  -- With a socket, and a server that gets the query and sends a standard answer, a run of host.c on
  -- a word of at most 255 characters sends `length word + 18` bytes and prints no address: the
  -- answer has a header of 12 bytes, one question whose name holds no zero byte, and a first record
  -- whose name is a pointer of two bytes, the second of them not zero, and it fits the buffer of
  -- 512 bytes.
  pub main_without_address :
      (garbage word : List ℕ) (server : Server)
      → length garbage ≡ 512
      → length word ≤ 255
      → is_neg server.socket ≡ false
      → is_neg server.sendto ≡ false
      → server.recvfrom ≡ some answer
      → length answer ≤ 512
      → length header ≡ 12
      → NoNul qname
      → length question ≡ 4
      → pointer_low < 256
      → pointer_low ≢ 0
      → type_high < 256
      → (datagram : List ℕ) × (main o garbage server word ≡ some (finished datagram none))
        × (length datagram ≡ length word + 18)
  unfolding main
  main_without_address garbage word server size short opened sent came fits h nz q small other
        small' =
      let query = build_query-IsShifted o garbage word (omega (arith, size, short)) in
      (
        take (length word + 18) query.buffer,
        rw
            (
              read_word-fits 256 word (omega (arith, short)),
              opened,
              query.returns,
              sent,
              came,
              store-write query.buffer 0 answer (omega (arith, query.same_size, size, fits)),
              write_start answer query.buffer (omega (arith, query.same_size, size, fits)),
              answer-append (drop (length answer) query.buffer),
              parse_response-reply o header qname question pointer_high pointer_low type_high
                  (rest ++ drop (length answer) query.buffer) h nz q small other small',
            )
            refl,
        omega (arith, length-take (length word + 18) query.buffer, query.same_size, size, short),
      )
