-- ===== src/Traceroute/Packet/Result.antt =====
-- `create_packet` as a whole.
use Prim.Native.String.{String}
use c_network_tools.Base.{
  ℕ, ◌+◌, ◌*◌, ◌≡◌, refl, sym, ◌∙◌, ap, List, [], ◌++◌, Option, none, some, arith, ByteOrder,
  little, big, u8, net16, replicate, length, Bytes, Bytes-append, Bytes-replicate, take, drop,
  take-append, drop-append, length-append, length-replicate, get_elem?,
}
use c_network_tools.Checksum.{checksum}
use c_network_tools.Traceroute.Packet.{
  udphdr_bytes, packet_bytes, ip_header, udp_header, create_packet, packet_size, sizeof_iphdr,
  sizeof_udphdr,
}
use c_network_tools.Traceroute.Packet.Laws.{
  with_check, pseudo, ip_checked, udp_checked, checksum_of_header, header_length,
}

-- `result` is a packet that both checksums accept.
pub record IsSound (o : ByteOrder) (inet_addr : String → ℕ) (ttl : ℕ) (result : Option (List ℕ × ℕ))
    : Type 0 where
  pub packet : List ℕ
  pub returns : result ≡ some (packet, sizeof_iphdr + sizeof_udphdr)
  pub fills_buffer : length packet ≡ packet_size
  pub header_verifies : checksum o packet 20 ≡ some 0
  pub udp_verifies :
      checksum o (pseudo o inet_addr ++ take sizeof_udphdr (drop sizeof_iphdr packet)) 20 ≡ some 0
  pub ttl_byte : get_elem? packet 8 ≡ some (u8 ttl)

module _ (o : ByteOrder) (inet_addr : String → ℕ) (ttl : ℕ) where
  abbrev udp_part : ℕ → List ℕ
  udp_part c = udphdr_bytes o (record (udp_header o) { check = c })

  create_packet_returns :
      (c d : ℕ)
      → checksum o (with_check o inet_addr ttl 0 ++ (replicate 8 0 ++ replicate 4068 0)) 28 ≡ some c
      → checksum o (pseudo o inet_addr ++ udphdr_bytes o (udp_header o)) 20 ≡ some d
      → create_packet o inet_addr ttl
        ≡ some (packet_bytes (with_check o inet_addr ttl c) (udp_part d), 28)
  unfolding create_packet
  create_packet_returns c d p q = rw (p, q)

  udp_part_fits :
      (p : ByteOrder) (c : ℕ)
      → (length (udphdr_bytes p (record (udp_header p) { check = c })) ≡ 8)
        × Bytes (udphdr_bytes p (record (udp_header p) { check = c }))
  unfolding udp_header
  udp_part_fits little c = (refl, omega arith)
  udp_part_fits big c = (refl, omega arith)

  udp_slice :
      (c d : ℕ)
      → take 8 (drop 20 (packet_bytes (with_check o inet_addr ttl c) (udp_part d))) ≡ udp_part d
  udp_slice c d =
      ap (λ n. take 8 (drop n (packet_bytes (with_check o inet_addr ttl c) (udp_part d))))
        (sym (header_length o inet_addr ttl c))
      ∙ ap (take 8) (drop-append (with_check o inet_addr ttl c) (udp_part d ++ replicate 4068 0))
      ∙ ap (λ n. take n (udp_part d ++ replicate 4068 0)) (sym (udp_part_fits o d).0)
      ∙ take-append (udp_part d) (replicate 4068 0)

  length-packet :
      (c d : ℕ) → length (packet_bytes (with_check o inet_addr ttl c) (udp_part d)) ≡ 4096
  length-packet c d = omega (
    arith,
    length-append (with_check o inet_addr ttl c) (udp_part d ++ replicate 4068 0),
    length-append (udp_part d) (replicate 4068 0),
    length-replicate {A = ℕ} 4068 0,
    header_length o inet_addr ttl c,
    (udp_part_fits o d).0,
  )

  -- `create_packet` reads nothing outside its buffers and returns the size 28. In the packet, of
  -- the size of the caller's buffer, the checksum of the IP header's 20 bytes is 0, so is the
  -- checksum of the pseudo header followed by the UDP header, and the TTL byte is `ttl`.
  pub create_packet-IsSound : IsSound o inet_addr ttl (create_packet o inet_addr ttl)
  create_packet-IsSound =
      let (c, p, header_ok) = ip_checked o inet_addr ttl (replicate 4068 0) zeros in
      let (d, q, udp_ok) = udp_checked o inet_addr in
      record {
        packet = packet_bytes (with_check o inet_addr ttl c) (udp_part d);
        returns = create_packet_returns c d p q;
        fills_buffer = length-packet c d;
        header_verifies =
            checksum_of_header o inet_addr ttl c (udp_part d ++ replicate 4068 0)
              (Bytes-append (udp_part d) _ (udp_part_fits o d).1 zeros)
            ∙ header_ok;
        udp_verifies = ap (λ b. checksum o (pseudo o inet_addr ++ b) 20) (udp_slice c d) ∙ udp_ok;
        ttl_byte = ttl_at o c d;
      }
    where
      zeros : Bytes (replicate 4068 0)
      zeros = Bytes-replicate 4068 0 (omega arith)

      ttl_at :
          (p : ByteOrder) (c d : ℕ)
          → get_elem?
              (packet_bytes
                (with_check p inet_addr ttl c)
                (udphdr_bytes p (record (udp_header p) { check = d })))
              8
            ≡ some (u8 ttl)
      ttl_at little c d = unfold ip_header in refl
      ttl_at big c d = unfold ip_header in refl

module _ (inet_addr : String → ℕ) (ttl : ℕ) (packet : List ℕ) (size : ℕ) where
  -- On a little-endian host the receiver, which reads the high byte first, finds the total
  -- length 28 * 256 and the identification 0, and not 28 and 54321, in every packet.
  create_packet_little_fields :
      create_packet little inet_addr ttl ≡ some (packet, size)
      → take 4 (drop 2 packet) ≡ net16 (28 * 256) ++ net16 0
  create_packet_little_fields made =
      let (c, p, _) =
        ip_checked little inet_addr ttl (replicate 4068 0) (Bytes-replicate 4068 0 (omega arith)) in
      let (d, q, _) = udp_checked little inet_addr in
      let built = create_packet_returns little inet_addr ttl c d p q in
      ap (λ r. take 4 (drop 2 (packet_of r))) (sym made ∙ built) ∙ fields c d
    where
      packet_of : Option (List ℕ × ℕ) → List ℕ
      packet_of none = []
      packet_of (some (b, _)) = b

      fields :
          (c d : ℕ)
          → take 4 (
              drop 2 (
                packet_bytes (with_check little inet_addr ttl c) (udp_part little inet_addr ttl d)))
            ≡ net16 (28 * 256) ++ net16 0
      fields c d = unfold ip_header in refl
