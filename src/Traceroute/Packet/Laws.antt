-- ===== src/Traceroute/Packet/Laws.antt =====
-- What a receiver of `create_packet`'s packet finds in it.
use Prim.Native.String.{String}
use c_network_tools.Base.{
  ℕ, ◌+◌, ◌*◌, ◌≡◌, refl, sym, ◌∙◌, ap, List, [], ◌++◌, some, arith, ByteOrder, little, big,
  bytes16, replicate, length, Bytes, Bytes-append, append_assoc, append-nil, length-append,
}
use c_network_tools.Checksum.{checksum}
use c_network_tools.Checksum.Laws.{
  checksum_returns, around, checksum_verifies, length-around, Bytes-around,
}
use c_network_tools.Checksum.Order.{checksum-append, checksum_zeros}
use c_network_tools.Traceroute.Packet.{
  iphdr_head, iphdr_tail, udphdr_head, udphdr_bytes, pseudo_header_bytes, ip_header, udp_header,
  pseudo_header,
}

module _ (inet_addr : String → ℕ) where
  pub head_fits :
      (o : ByteOrder) (ttl : ℕ)
      → (length (iphdr_head o (ip_header o inet_addr ttl)) ≡ 2 * 5)
        × Bytes (iphdr_head o (ip_header o inet_addr ttl))
  unfolding ip_header
  head_fits little ttl = (refl, omega arith)
  head_fits big ttl = (refl, omega arith)

  tail_fits :
      (o : ByteOrder) (ttl : ℕ)
      → (length (iphdr_tail o (ip_header o inet_addr ttl)) ≡ 8)
        × Bytes (iphdr_tail o (ip_header o inet_addr ttl))
  unfolding ip_header
  tail_fits little ttl = (refl, omega arith)
  tail_fits big ttl = (refl, omega arith)

  udp_fits :
      (o : ByteOrder)
      → (length (pseudo_header_bytes o (pseudo_header o inet_addr) ++ udphdr_head o (udp_header o))
          ≡ 2 * 9)
        × Bytes (pseudo_header_bytes o (pseudo_header o inet_addr) ++ udphdr_head o (udp_header o))
  unfolding pseudo_header udp_header
  udp_fits little = (refl, omega arith)
  udp_fits big = (refl, omega arith)

module _ (o : ByteOrder) (inet_addr : String → ℕ) (ttl : ℕ) where
  abbrev pub head : List ℕ
  head = iphdr_head o (ip_header o inet_addr ttl)

  abbrev pub tail : List ℕ
  tail = iphdr_tail o (ip_header o inet_addr ttl)

  -- The IP header alone, with `c` in its check field.
  abbrev pub with_check : ℕ → List ℕ
  with_check c = around o head c tail

  header_Bytes : (c : ℕ) → Bytes (with_check c)
  header_Bytes c =
      Bytes-around o head tail c (head_fits inet_addr o ttl).1 (tail_fits inet_addr o ttl).1

  pub header_length : (c : ℕ) → length (with_check c) ≡ 20
  header_length c = omega (
    arith,
    length-around o head tail c,
    (head_fits inet_addr o ttl).0,
    (tail_fits inet_addr o ttl).0,
  )

  -- The first 20 bytes of a buffer that begins with the header.
  pub checksum_of_header :
      (c : ℕ) (rest : List ℕ)
      → Bytes rest
      → checksum o (with_check c ++ rest) 20 ≡ checksum o (with_check c) 20
  checksum_of_header c rest h =
      ap (checksum o (with_check c ++ rest)) (sym (header_length c))
      ∙ checksum-append o (with_check c) rest (header_Bytes c) h (omega (arith, header_length c))
      ∙ ap (checksum o (with_check c)) (header_length c)

  -- The eight zeros behind the header, which the code includes, do not count.
  checksum_of_28 :
      (rest : List ℕ)
      → Bytes rest
      → checksum o (with_check 0 ++ (replicate 8 0 ++ rest)) 28 ≡ checksum o (with_check 0) 20
  checksum_of_28 rest h =
      ap (λ b. checksum o b 28) (sym (append_assoc (with_check 0) (replicate 8 0) rest))
      ∙ ap (checksum o _) (sym len)
      ∙ checksum-append o (with_check 0 ++ replicate 8 0) rest
          (Bytes-append (with_check 0) _ (header_Bytes 0) (omega arith)) h (omega (arith, len))
      ∙ ap (checksum o (with_check 0 ++ replicate 8 0)) (len ∙ len')
      ∙ checksum_zeros o 10 8 (with_check 0) (header_length 0) (header_Bytes 0)
          (omega (arith, header_length 0))
      ∙ ap (checksum o (with_check 0)) (header_length 0)
    where
      len : length (with_check 0 ++ replicate 8 0) ≡ 28
      len = omega (arith, length-append (with_check 0) (replicate 8 0), header_length 0)

      len' : 28 ≡ length (with_check 0) + 8
      len' = omega (arith, header_length 0)

  -- Both checksums of `create_packet`, with what a receiver computes.
  pub ip_checked :
      (rest : List ℕ)
      → Bytes rest
      → (c : ℕ) × (checksum o (with_check 0 ++ (replicate 8 0 ++ rest)) 28 ≡ some c)
        × (checksum o (with_check c) 20 ≡ some 0)
  ip_checked rest h =
      let (c, computed) =
        checksum_returns o (with_check 0) 20 (header_Bytes 0) (omega (arith, header_length 0))
          (omega arith) in
      (
        c,
        checksum_of_28 rest h ∙ computed,
        (checksum_verifies o 5 20 head tail c (head_fits inet_addr o ttl).0
            (omega (arith, (head_fits inet_addr o ttl).0, (tail_fits inet_addr o ttl).0))
            (head_fits inet_addr o ttl).1 (tail_fits inet_addr o ttl).1 (omega arith) computed).1,
      )

module _ (o : ByteOrder) (inet_addr : String → ℕ) where
  abbrev pub pseudo : List ℕ
  pseudo = pseudo_header_bytes o (pseudo_header o inet_addr)

  udp_layout :
      (c : ℕ)
      → pseudo ++ udphdr_bytes o (record (udp_header o) { check = c })
        ≡ around o (pseudo ++ udphdr_head o (udp_header o)) c []
  udp_layout c =
      sym (append_assoc pseudo (udphdr_head o (udp_header o)) (bytes16 o c))
      ∙ ap (λ t. (pseudo ++ udphdr_head o (udp_header o)) ++ t) (sym (append-nil (bytes16 o c)))

  pub udp_checked :
      (c : ℕ) × (checksum o (pseudo ++ udphdr_bytes o (udp_header o)) 20 ≡ some c)
      × (checksum o (pseudo ++ udphdr_bytes o (record (udp_header o) { check = c })) 20 ≡ some 0)
  unfolding udp_header
  udp_checked =
      let fits = udp_fits inet_addr o in
      let (c, computed) =
        checksum_returns o (around o (pseudo ++ udphdr_head o (udp_header o)) 0 []) 20
          (Bytes-around o _ [] 0 fits.1 tt) (omega (arith, fits.0, length-around o _ [] 0))
          (omega arith) in
      (
        c,
        ap (λ b. checksum o b 20) (udp_layout 0) ∙ computed,
        ap (λ b. checksum o b 20) (udp_layout c)
            ∙ (checksum_verifies o 9 20 _ [] c fits.0 (omega (arith, fits.0)) fits.1 tt
                (omega arith) computed).1,
      )
