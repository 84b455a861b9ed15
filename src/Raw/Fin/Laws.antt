-- ===== src/Raw/Fin/Laws.antt =====
-- What `tcp_fin_scan` sends, and what a scan by it reports.
use Prim.Native.String.{String}
use c_network_tools.Base.{
  ℕ, ◌≡◌, ◌↔◌, ◌⊎◌, inl, inr, refl, Bool, false, Bool-cases, List, [], ◌++◌, some, arith, ByteOrder,
  length, length-append, Bytes-append, u16, is_neg, is_zero, not, ◌&&◌,
}
use c_network_tools.Checksum
use c_network_tools.Checksum.Laws.{checksum_returns}
use c_network_tools.Scan.{returned, exited}
use c_network_tools.Raw.Loop.{
  never_rst, sent_by, Each-sent_by, IsProbe, IsScan, scan_loop-IsScan, scan_loop-exited,
}
use c_network_tools.Raw.{Probe, Scan, report, ip_filled, tcp_filled}
use c_network_tools.Raw.Segments.{
  with_sum, with_sum_fits, with_checksum, with_checksum_fits, ip_sum_computed,
}
use c_network_tools.Raw.Fin.{World, fin_packet, tcp_fin_scan, scan_ports}

module _ (o : ByteOrder) (inet_addr : String → ℕ) where
  -- A packet of 40 bytes: an IP header, which has the checksum 0 exactly if `ip_sum` held 0 or
  -- 65535 before, and a TCP header with the flag FIN and 0 in its checksum.
  pub record IsFinPacket (s_addr garbage port : ℕ) (packet : List ℕ) : Type 0 where
    pub ip_sum : ℕ
    pub layout :
        packet ≡ with_sum o inet_addr 20 s_addr garbage ip_sum ++ with_checksum o 0x01 port 0
    pub size : length packet ≡ 40
    pub ip_verifies :
        (Checksum.checksum o (with_sum o inet_addr 20 s_addr garbage ip_sum) 20 ≡ some 0)
        ↔ ((u16 garbage ≡ 0) ⊎ (u16 garbage ≡ 65535))

  pub fin_packet-IsFinPacket :
      (s_addr garbage port : ℕ)
      → (packet : List ℕ) × (fin_packet o inet_addr s_addr garbage port ≡ some packet)
        × IsFinPacket s_addr garbage port packet
  unfolding fin_packet ip_filled tcp_filled
  fin_packet-IsFinPacket s_addr garbage port =
      let (c, computed, right) = ip_sum_computed o inet_addr 20 s_addr garbage in
      let ip = with_sum_fits o inet_addr 20 s_addr garbage c in
      let tcp = with_checksum_fits o 0x01 port (omega arith) 0 in
      let header = with_sum o inet_addr 20 s_addr garbage c in
      let packet = header ++ with_checksum o 0x01 port 0 in
      let size : length packet ≡ 40 =
        omega (arith, length-append header (with_checksum o 0x01 port 0), ip.0, tcp.0) in
      let (d, again) =
        checksum_returns o packet 40 (Bytes-append header _ ip.1 tcp.1) (omega (arith, size))
          (omega arith) in
      (
        packet,
        rw (computed, again) refl,
        record { ip_sum = c; layout = refl; size = size; ip_verifies = right },
      )

-- Whether everything that a probe does for a port succeeds, the answer included.
abbrev pub is_answered : World → ℕ → Bool
is_answered w port =
    not (is_neg (w.kernel.socket port))
    && is_zero (w.kernel.inet_pton port)
    && not (is_neg (w.kernel.setsockopt port))
    && not (is_neg (w.kernel.recvfrom port))

module _ (o : ByteOrder) (inet_addr : String → ℕ) (w : World) where
  -- The packet for a port.
  abbrev pub IsSent : ℕ → List ℕ → Type 0
  IsSent port packet = IsFinPacket o inet_addr (w.s_addr port) (w.ip_sum port) port packet

  tcp_fin_scan-IsProbe :
      (port : ℕ) → IsProbe (IsSent port) 0 (is_answered w port) (tcp_fin_scan o inet_addr w port)
  unfolding tcp_fin_scan sent_by
  tcp_fin_scan-IsProbe port =
      let (packet, made, right) =
        fin_packet-IsFinPacket o inet_addr (w.s_addr port) (w.ip_sum port) port in
      let packets = sent_by (is_neg (w.kernel.sendto port)) packet in
      let (good, few) = Each-sent_by (IsSent port) (is_neg (w.kernel.sendto port)) packet right in
      let before : Probe = record { packets = []; verdict = exited 1 } in
      let behind : Probe = record { packets = packets; verdict = exited 1 } in
      elim (Bool-cases (is_neg (w.kernel.socket port))) [
        | inl failed ↦ rw failed (record {
          probe = before;
          runs = refl;
          verdict_right = refl;
          good = tt;
          few = omega arith;
        })
        | inr opened ↦ elim (Bool-cases (is_zero (w.kernel.inet_pton port))) [
          | inr valid ↦
              rw (opened, valid)
                (record {
                  probe = before;
                  runs = refl;
                  verdict_right = refl;
                  good = tt;
                  few = omega arith;
                })
          | inl invalid ↦ elim (Bool-cases (is_neg (w.kernel.setsockopt port))) [
            | inl failed ↦
                rw (opened, invalid, failed, made)
                  (record {
                    probe = behind;
                    runs = refl;
                    verdict_right = refl;
                    good = good;
                    few = few;
                  })
            | inr limited ↦ elim (Bool-cases (is_neg (w.kernel.recvfrom port))) [
              | inl silent ↦
                  rw (opened, invalid, limited, silent, made)
                    (record {
                      probe = behind;
                      runs = refl;
                      verdict_right = refl;
                      good = good;
                      few = few;
                    })
              | inr answered ↦
                  rw (opened, invalid, limited, answered, made, never_rst (w.response port))
                    (record {
                      probe = record { packets = packets; verdict = returned 0 };
                      runs = refl;
                      verdict_right = refl;
                      good = good;
                      few = few;
                    })
            ]
          ]
        ]
      ]

  -- A scan of the ports 1 to 1023 does not fault. For each port it comes to it sends at most one
  -- packet, the FIN packet for this port; it reports every port as CLOSED, up to the first one at
  -- which the socket, the address, the time limit or the answer fails, and there ends the program
  -- with status 1.
  pub scan_ports-IsScan :
      (s : Scan) × (scan_ports o inet_addr w ≡ some s)
      × IsScan (is_answered w) IsSent false 1023 1 s
  unfolding scan_ports report
  scan_ports-IsScan =
      scan_loop-IsScan report (tcp_fin_scan o inet_addr w) (is_answered w) IsSent 0 false
        (λ port. refl) tcp_fin_scan-IsProbe 1023 1

  tcp_fin_scan_rejects :
      (port : ℕ)
      → is_zero (w.kernel.inet_pton port) ≡ false
      → tcp_fin_scan o inet_addr w port ≡ some (record { packets = []; verdict = exited 1 })
  unfolding tcp_fin_scan
  tcp_fin_scan_rejects port valid = elim (Bool-cases (is_neg (w.kernel.socket port))) [
    | inl failed ↦ rw failed refl
    | inr opened ↦ rw (opened, valid) refl
  ]

  -- `inet_pton` answers 1 for a valid address. With any answer but 0 at the first port, the scan
  -- ends with status 1, without a line or a packet.
  scan_ports_rejects :
      is_zero (w.kernel.inet_pton 1) ≡ false
      → scan_ports o inet_addr w ≡ some (record { lines = []; packets = []; status = some 1 })
  unfolding scan_ports
  scan_ports_rejects valid =
      scan_loop-exited report (tcp_fin_scan o inet_addr w) 1022 1
        (record { packets = []; verdict = exited 1 }) 1 (tcp_fin_scan_rejects 1 valid) refl
