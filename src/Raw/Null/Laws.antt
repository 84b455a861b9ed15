-- ===== src/Raw/Null/Laws.antt =====
-- What `tcp_null_scan` sends, and what it says of the port.
use Prim.Native.String.{String}
use c_network_tools.Base.{
  ℕ, ◌+◌, ◌-◌, [], ◌∷◌, ◌≤◌, ◌≡◌, ◌↔◌, ◌⊎◌, inl, inr, refl, true, false, Bool-cases, List, ◌++◌,
  Option, some, none, ◌>>=◌, arith, ByteOrder, length, drop, get_elem?, get_elem?-lt, length-append,
  length-drop, Bytes-append, u16, is_neg, is_zero, not, ◌==◌, if◌then◌else◌, store, store-write,
  Option-cases, write_start,
}
use c_network_tools.Checksum
use c_network_tools.Checksum.Laws.{checksum_returns}
use c_network_tools.Raw.{ip_filled, tcp_filled, pseudo_filled, pseudo_bytes}
use c_network_tools.Raw.Segments.{
  with_sum, with_sum_fits, with_checksum, with_checksum_fits, ip_sum_computed,
  tcp_checksum_computed,
}
use c_network_tools.Raw.Null.{
  World, Call, opened, closed, given, Run, exited, send_failed, no_answer, reported, null_packet,
  tcp_null_scan,
}

module _ (o : ByteOrder) (inet_addr : String → ℕ) where
  -- A packet that consists of an IP header, which has the checksum 0 exactly if `ip_sum` held 0 or
  -- 65535 before, and of a TCP header without flags that has the checksum 0 together with the
  -- pseudo header.
  pub record IsNullPacket (s_addr garbage port : ℕ) (packet : List ℕ) : Type 0 where
    pub ip_sum : ℕ
    pub checksum : ℕ
    pub layout :
        packet ≡ with_sum o inet_addr 20 s_addr garbage ip_sum ++ with_checksum o 0x00 port checksum
    pub ip_verifies :
        (Checksum.checksum o (with_sum o inet_addr 20 s_addr garbage ip_sum) 20 ≡ some 0)
        ↔ ((u16 garbage ≡ 0) ⊎ (u16 garbage ≡ 65535))
    pub tcp_verifies :
        Checksum.checksum o
          (pseudo_bytes o (pseudo_filled o inet_addr 20 s_addr)
            ++ with_checksum o 0x00 port checksum)
          32
        ≡ some 0

  pub null_packet-IsNullPacket :
      (s_addr garbage port : ℕ)
      → (packet : List ℕ) × (null_packet o inet_addr s_addr garbage port ≡ some packet)
        × IsNullPacket s_addr garbage port packet
  unfolding null_packet ip_filled tcp_filled
  null_packet-IsNullPacket s_addr garbage port =
      let (c, computed, right) = ip_sum_computed o inet_addr 20 s_addr garbage in
      let (d, over_pseudo, verified) =
        tcp_checksum_computed o inet_addr s_addr 0x00 port (omega arith) in
      let ip = with_sum_fits o inet_addr 20 s_addr garbage c in
      let tcp = with_checksum_fits o 0x00 port (omega arith) d in
      let packet = with_sum o inet_addr 20 s_addr garbage c ++ with_checksum o 0x00 port d in
      let (e, again) =
        checksum_returns o packet 40
          (Bytes-append (with_sum o inet_addr 20 s_addr garbage c) _ ip.1 tcp.1)
          (omega (
            arith,
            length-append (with_sum o inet_addr 20 s_addr garbage c) (with_checksum o 0x00 port d),
            ip.0,
            tcp.0,
          ))
          (omega arith) in
      (
        packet,
        rw (computed, over_pseudo, again) refl,
        record {
          ip_sum = c;
          checksum = d;
          layout = refl;
          ip_verifies = right;
          tcp_verifies = verified;
        },
      )

-- How the scan ends once it has an address and a packet, and with which calls: the socket stays open
-- if the packet cannot be sent. The byte that decides is at place 33 of what was received, or,
-- behind its end, of what `response` held before.
pub data Ends (w : World) (packet : List ℕ) : Run → Type 0 where
  unsent :
      is_neg w.sendto ≡ true
      → Ends w packet (record { calls = opened ∷ given packet ∷ []; outcome = send_failed })
  silent :
      is_neg w.sendto ≡ false
      → w.recvfrom ≡ none
      → Ends w packet (record { calls = opened ∷ given packet ∷ closed ∷ []; outcome = no_answer })
  told :
      (bytes : List ℕ) (flags : ℕ)
      → is_neg w.sendto ≡ false
      → w.recvfrom ≡ some bytes
      → get_elem? (bytes ++ drop (length bytes) w.response) 33 ≡ some flags
      → Ends w packet (record {
        calls = opened ∷ given packet ∷ closed ∷ [];
        outcome = reported (not (flags == 0x14));
      })

-- `recvfrom` writes at most the buffer's length.
abbrev pub Fits : World → Type 0
Fits w = (bytes : List ℕ) → w.recvfrom ≡ some bytes → length bytes ≤ length w.response

abbrev verdict : List Call → ℕ → Option Run
verdict calls flags =
    if flags == 0x14
    then some (record { calls = calls; outcome = reported false })
    else some (record { calls = calls; outcome = reported true })

module _ (response bytes : List ℕ) (fits : length bytes ≤ length response) where
  read_flags :
      length response ≡ 1024
      → (flags : ℕ) × (get_elem? (bytes ++ drop (length bytes) response) 33 ≡ some flags)
  read_flags e = get_elem?-lt (bytes ++ drop (length bytes) response) 33 (
      omega (
        arith,
        length-append bytes (drop (length bytes) response),
        length-drop (length bytes) response,
      ))

  verdict_by :
      (calls : List Call) (flags : ℕ)
      → get_elem? (bytes ++ drop (length bytes) response) 33 ≡ some flags
      → (do seen ← store response 0 bytes; flags ← get_elem? seen 33; verdict calls flags)
        ≡ some (record { calls = calls; outcome = reported (not (flags == 0x14)) })
  verdict_by calls flags found =
      rw (store-write response 0 bytes (omega arith), write_start bytes response fits, found)
        (ground arith)

-- The packets among the calls, and the sockets that they leave open.
abbrev pub packets : List Call → List (List ℕ)
packets [] = []
packets (given packet ∷ calls) = packet ∷ packets calls
packets (opened ∷ calls) = packets calls
packets (closed ∷ calls) = packets calls

abbrev pub left_open : ℕ → List Call → ℕ
left_open n [] = n
left_open n (opened ∷ calls) = left_open (n + 1) calls
left_open n (closed ∷ calls) = left_open (n - 1) calls
left_open n (given packet ∷ calls) = left_open n calls

module _ (o : ByteOrder) (inet_addr : String → ℕ) (w : World) (port : ℕ) where
  -- With a socket, its time limit, the answer 0 of `inet_pton`, a response buffer of 1024 bytes and
  -- an answer that fits it, the scan ends without a fault, as the results of `sendto` and
  -- `recvfrom` and the flags of the answer say, and the packet that it gives to `sendto` is a NULL
  -- packet.
  pub tcp_null_scan-Ends :
      is_neg w.socket ≡ false
      → is_neg w.setsockopt ≡ false
      → is_zero w.inet_pton ≡ true
      → length w.response ≡ 1024
      → Fits w
      → (packet : List ℕ) × (run : Run) × (tcp_null_scan o inet_addr w port ≡ some run)
        × IsNullPacket o inet_addr w.s_addr w.ip_sum port packet
        × Ends w packet run
  unfolding tcp_null_scan
  tcp_null_scan-Ends has_socket limited invalid size fits =
      let (packet, made, right) = null_packet-IsNullPacket o inet_addr w.s_addr w.ip_sum port in
      let calls = opened ∷ given packet ∷ closed ∷ [] in
      elim (Bool-cases (is_neg w.sendto)) [
        | inl failed ↦ (
          packet,
          record { calls = opened ∷ given packet ∷ []; outcome = send_failed },
          rw (has_socket, limited, invalid, made, failed) refl,
          right,
          unsent failed,
        )
        | inr sent ↦ elim (Option-cases w.recvfrom) [
          | inl none_came ↦ (
            packet,
            record { calls = calls; outcome = no_answer },
            rw (has_socket, limited, invalid, made, sent, none_came) refl,
            right,
            silent sent none_came,
          )
          | inr (bytes, came) ↦
              let (flags, found) = read_flags w.response bytes (fits bytes came) size in
              (
                packet,
                record { calls = calls; outcome = reported (not (flags == 0x14)) },
                rw (has_socket, limited, invalid, made, sent, came)
                    (verdict_by w.response bytes (fits bytes came) calls flags found),
                right,
                told bytes flags sent came found,
              )
        ]
      ]

  -- `inet_pton` answers 1 for a valid address. With any answer but 0 the program ends with status 1,
  -- gives no packet to `sendto` and leaves no socket open.
  pub tcp_null_scan_rejects :
      is_zero w.inet_pton ≡ false
      → (run : Run) × (tcp_null_scan o inet_addr w port ≡ some run)
        × (run.outcome ≡ exited 1)
        × (packets run.calls ≡ [])
        × (left_open 0 run.calls ≡ 0)
  unfolding tcp_null_scan
  tcp_null_scan_rejects valid = elim (Bool-cases (is_neg w.socket)) [
    | inl failed ↦ (record { calls = []; outcome = exited 1 }, rw failed refl, refl, refl, refl)
    | inr made ↦
        let run : Run = record { calls = opened ∷ closed ∷ []; outcome = exited 1 } in
        elim (Bool-cases (is_neg w.setsockopt)) [
          | inl unlimited ↦ (run, rw (made, unlimited) refl, refl, refl, refl)
          | inr limited ↦ (run, rw (made, limited, valid) refl, refl, refl, refl)
        ]
  ]
