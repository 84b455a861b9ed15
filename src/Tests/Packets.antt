-- ===== src/Tests/Packets.antt =====
-- Checksums and packets of traceroute.c.
use Prim.Native.String.{String}
use text.Mathlib.Text.{◌==◌ as str_eq}
use c_network_tools.Base.{
  ℕ, ◌^◌, ◌<◌, ◌≡◌, ◌↔◌, ◌⊎◌, refl, List, [], ◌∷◌, some, arith, little, big, bytes16, take, pos,
  negsuc, ◌==◌, ◌-◌, if◌then◌else◌,
}
use c_network_tools.Checksum.{checksum}
use c_network_tools.Checksum.Total.{total}
use c_network_tools.Checksum.Fold.{ones_sum}
use c_network_tools.Checksum.Laws.{around, checksum-ones_sum, checksum_verifies}
use c_network_tools.Checksum.Stale.{checksum_stale}
use c_network_tools.Checksum.Order.{checksum_byte_order}
use c_network_tools.Traceroute.Packet.{create_packet}
use c_network_tools.Traceroute.Packet.Result.{IsSound, create_packet-IsSound}
use c_network_tools.Traceroute.Route.{Network, main, max_ttl}
use c_network_tools.Traceroute.Route.Laws.{Run, main-Run}

abbrev message : List ℕ
message = 0x45 ∷ 0 ∷ 0 ∷ 28 ∷ []

checksum_runs : checksum little message 4 ≡ some 0xe3ba
unfolding checksum
checksum_runs = refl

checksum-ones_sum_example :
    checksum little message 3 ≡ some (65535 - ones_sum (total little (take 3 message)))
checksum-ones_sum_example =
    checksum-ones_sum little message 3 (omega arith) (omega arith) (omega arith)

checksum_verifies_example :
    (0xe3b9 < 2 ^ 16) × (checksum little (around little message 0xe3b9 (1 ∷ [])) 7 ≡ some 0)
checksum_verifies_example =
    checksum_verifies little 2 7 message (1 ∷ []) 0xe3b9 refl refl (omega arith) (omega arith)
      (omega arith) stored
  where
    stored : checksum little (around little message 0 (1 ∷ [])) 7 ≡ some 0xe3b9
    stored = unfold checksum in refl

abbrev held : ℕ
held = 1

-- The field held 1, and the checksum that is stored in it is one too small.
checksum_stale_example :
    (checksum little (around little message 0xe3b8 (1 ∷ [])) 7 ≡ some 0)
    ↔ ((held ≡ 0) ⊎ (held ≡ 65535))
unfolding checksum total
checksum_stale_example =
    checksum_stale little 2 7 message (1 ∷ []) 1 0xe3b8 refl refl (omega arith) (omega arith)
      (omega arith) (omega arith) (omega arith) refl

checksum_byte_order_example : bytes16 little 0xe3ba ≡ bytes16 big 0xbae3
unfolding checksum
checksum_byte_order_example =
    checksum_byte_order 2 message 0xe3ba 0xbae3 refl (omega arith) (omega arith) refl refl

-- `inet_addr` on a little-endian host, at the two addresses of the program.
abbrev address_of : String → ℕ
address_of s = if str_eq s "1.2.3.4" then 0x04030201 else 0x08080808

create_packet-IsSound_example : IsSound little address_of 7 (create_packet little address_of 7)
create_packet-IsSound_example = create_packet-IsSound little address_of 7

-- The destination answers in the third round, and the second times out.
abbrev three_hops : Network
three_hops = record {
  gethostbyname = λ name. some 42;
  socket = pos 3;
  sendto = λ ttl. pos 28;
  recvfrom = λ ttl. if ttl == 2 then negsuc 0 else pos 56;
  r_addr = λ ttl. if ttl == 3 then 42 else ttl;
}

main-Run_example :
    Run little address_of three_hops 42 max_ttl 1 (main little address_of three_hops (b'h' ∷ []))
main-Run_example = main-Run little address_of three_hops (b'h' ∷ []) 42 (omega arith) refl refl
