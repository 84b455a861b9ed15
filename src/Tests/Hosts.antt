-- ===== src/Tests/Hosts.antt =====
-- A run of host.c.
use c_network_tools.Base.{
  ℕ, ◌+◌, ◌≡◌, refl, List, [], ◌∷◌, some, none, arith, little, replicate, length, pos,
}
use c_network_tools.Dns.Dig.{Server, finished}
use c_network_tools.Dns.Host.{main}
use c_network_tools.Dns.Host.Laws.{answer, main_without_address}

-- `a.b`
abbrev word : List ℕ
word = b'a' ∷ b'.' ∷ b'b' ∷ []

abbrev header : List ℕ
header = 0x30 ∷ 0x39 ∷ 0x81 ∷ 0x80 ∷ 0 ∷ 1 ∷ 0 ∷ 1 ∷ 0 ∷ 0 ∷ 0 ∷ 0 ∷ []

abbrev qname : List ℕ
qname = 1 ∷ b'a' ∷ 1 ∷ b'b' ∷ []

abbrev question : List ℕ
question = 0 ∷ 1 ∷ 0 ∷ 1 ∷ []

-- The rest of a record with the address 1.2.3.4.
abbrev rest : List ℕ
rest = 1 ∷ 0 ∷ 1 ∷ 0 ∷ 0 ∷ 0 ∷ 60 ∷ 0 ∷ 4 ∷ 1 ∷ 2 ∷ 3 ∷ 4 ∷ []

abbrev server : Server
server = record {
  socket = pos 3;
  sendto = pos 21;
  recvfrom = some (answer little header qname question 0xc0 0x0c 0 rest);
}

main_without_address_example :
    (datagram : List ℕ) × (main little (replicate 512 7) server word
      ≡ some (finished datagram none))
    × (length datagram ≡ 3 + 18)
main_without_address_example =
    main_without_address little header qname question 0xc0 0x0c 0 rest (replicate 512 7) word server
      refl (omega arith) refl refl refl (omega arith) refl (omega arith) refl (omega arith)
      (omega arith) (omega arith)
