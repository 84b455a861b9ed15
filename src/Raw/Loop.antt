-- ===== src/Raw/Loop.antt =====
-- The loop over the ports of the raw scans, for any probe that sends at most one packet and either
-- returns a fixed value or ends the program.
use c_network_tools.Base.{
  ℕ, zero, suc, ◌+◌, ◌≤◌, ◌<◌, ◌≡◌, ◌⊎◌, inl, inr, refl, ◌∙◌, ap, ap₂, Bool, true, false,
  Bool-cases, List, [], ◌∷◌, ◌++◌, Option, some, none, arith, length, append-nil, if◌then◌else◌,
  ◌==◌,
}
use mathlib.Core.Path.{subst}
use c_network_tools.Scan.{returned, exited, Line}
use c_network_tools.Scan.Loop.{lines_by}
use c_network_tools.Raw.{Probe, Scan, scan_loop}

-- A predicate holds for every packet.
abbrev pub Each : (List ℕ → Type 0) → List (List ℕ) → Type 0
Each Good [] = Unit
Each Good (packet ∷ packets) = Good packet × Each Good packets

-- The packets that a probe gives to the kernel without an error.
unfoldable pub sent_by : Bool → List ℕ → List (List ℕ)
sent_by failed packet = if failed then [] else packet ∷ []

pub Each-sent_by :
    (Good : List ℕ → Type 0) (failed : Bool) (packet : List ℕ)
    → Good packet
    → Each Good (sent_by failed packet) × (length (sent_by failed packet) ≤ 1)
unfolding sent_by
Each-sent_by Good true packet h = (tt, omega arith)
Each-sent_by Good false packet h = ((h, tt), omega arith)

-- The pointer that is compared with a flag lies behind the 20 bytes of a header.
pub never_rst : (n : ℕ) → (n + 20 == 0x04) ≡ false
never_rst n = ground arith

-- The test holds for all of `n` ports from a port on.
abbrev pub All : (ℕ → Bool) → ℕ → ℕ → Type 0
All test zero port = Unit
All test (suc n) port = (test port ≡ true) × All test n (port + 1)

-- A probe that sends at most one packet, a good one, and returns `value` if the test holds;
-- otherwise it ends the program.
pub record IsProbe (Good : List ℕ → Type 0) (value : ℕ) (ok : Bool) (result : Option Probe)
    : Type 0 where
  pub probe : Probe
  pub runs : result ≡ some probe
  pub verdict_right : probe.verdict ≡ (if ok then returned value else exited 1)
  pub good : Each Good probe.packets
  pub few : length probe.packets ≤ 1

-- The packets for `n` ports from a port on, in their order: at most one for each, which is good for
-- this port.
pub data Sends (Good : ℕ → List ℕ → Type 0) : ℕ → ℕ → List (List ℕ) → Type 0 where
  done : {port : ℕ} → Sends Good zero port []
  skips :
      {n port : ℕ} {packets : List (List ℕ)}
      → Sends Good n (port + 1) packets
      → Sends Good (suc n) port packets
  sends :
      {n port : ℕ} {packet : List ℕ} {packets : List (List ℕ)}
      → Good port packet
      → Sends Good n (port + 1) packets
      → Sends Good (suc n) port (packet ∷ packets)

Sends-probe :
    (Good : ℕ → List ℕ → Type 0) (n port : ℕ) (xs ys : List (List ℕ))
    → Each (Good port) xs
    → length xs ≤ 1
    → Sends Good n (port + 1) ys
    → Sends Good (suc n) port (xs ++ ys)
Sends-probe Good n port [] ys h few rest = skips rest
Sends-probe Good n port (x ∷ []) ys h few rest = sends h.0 rest
Sends-probe Good n port (x ∷ x' ∷ xs) ys h few rest = absurd (omega arith)

-- A scan of `left` ports: for `n` of them the test holds, each with a line that says the same,
-- and then either no port is left or the test fails at the next port and the program ends with
-- status 1. For each of these ports at most one packet is sent, a good one.
pub record IsScan (test : ℕ → Bool) (Good : ℕ → List ℕ → Type 0) (says : Bool) (left port : ℕ)
    (s : Scan) : Type 0 where
  pub n : ℕ
  pub in_range : n ≤ left
  pub all_ok : All test n port
  pub lines_right : s.lines ≡ lines_by (λ _. says) n port
  pub ends :
      ((n ≡ left) × (s.status ≡ none) × Sends Good n port s.packets)
      ⊎ ((n < left)
          × (test (port + n) ≡ false)
          × (s.status ≡ some 1)
          × Sends Good (suc n) port s.packets)

module _ (prints : ℕ → ℕ → List Line) (probe : ℕ → Option Probe) (left port : ℕ) (p : Probe) where
  -- A round whose probe returns, and one whose probe ends the program.
  scan_loop-returned :
      (value : ℕ) (rest : Scan)
      → probe port ≡ some p
      → p.verdict ≡ returned value
      → scan_loop prints probe left (port + 1) ≡ some rest
      → scan_loop prints probe (suc left) port
        ≡ some (record {
          lines = prints value port ++ rest.lines;
          packets = p.packets ++ rest.packets;
          status = rest.status;
        })
  unfolding scan_loop
  scan_loop-returned value rest e v r = rw (e, v, r) refl

  pub scan_loop-exited :
      (status : ℕ)
      → probe port ≡ some p
      → p.verdict ≡ exited status
      → scan_loop prints probe (suc left) port
        ≡ some (record { lines = []; packets = p.packets; status = some status })
  unfolding scan_loop
  scan_loop-exited status e v = rw (e, v) refl

module _ (prints : ℕ → ℕ → List Line) (probe : ℕ → Option Probe) (test : ℕ → Bool)
    (Good : ℕ → List ℕ → Type 0) (value : ℕ) (says : Bool)
    (printed : (port : ℕ) → prints value port ≡ record { port = port; is_open = says } ∷ [])
    (behaves : (port : ℕ) → IsProbe (Good port) value (test port) (probe port)) where
  pub scan_loop-IsScan :
      (left port : ℕ)
      → (s : Scan) × (scan_loop prints probe left port ≡ some s) × IsScan test Good says left port s
  scan_loop-IsScan zero port = (
    record { lines = []; packets = []; status = none },
    unfold scan_loop in refl,
    record {
      n = 0;
      in_range = omega arith;
      all_ok = tt;
      lines_right = refl;
      ends = inl (refl, refl, done);
    },
  )
  scan_loop-IsScan (suc left) port =
      let p = behaves port in
      let (s, made, rest) = scan_loop-IsScan left (port + 1) in
      elim (Bool-cases (test port)) [
        | inl ok ↦
            let returns : p.probe.verdict ≡ returned value =
              p.verdict_right ∙ ap (λ b. if b then returned value else exited 1) ok in
            let at : port + 1 + rest.n ≡ port + suc rest.n = omega arith in
            (
              _,
              scan_loop-returned prints probe left port p.probe value s p.runs returns made,
              record {
                n = suc rest.n;
                in_range = omega (arith, rest.in_range);
                all_ok = (ok, rest.all_ok);
                lines_right = ap₂ ◌++◌ (printed port) rest.lines_right;
                ends = elim rest.ends [
                  | inl (all, st, sent) ↦ inl (
                    omega arith,
                    st,
                    Sends-probe Good _ port p.probe.packets s.packets p.good p.few sent,
                  )
                  | inr (fewer, failed, st, sent) ↦ inr (
                    omega arith,
                    rw (← at) failed,
                    st,
                    Sends-probe Good _ port p.probe.packets s.packets p.good p.few sent,
                  )
                ];
              },
            )
        | inr failed ↦
            let exits : p.probe.verdict ≡ exited 1 =
              p.verdict_right ∙ ap (λ b. if b then returned value else exited 1) failed in
            (
              _,
              scan_loop-exited prints probe left port p.probe 1 p.runs exits,
              record {
                n = 0;
                in_range = omega arith;
                all_ok = tt;
                lines_right = refl;
                ends = inr (
                  omega arith,
                  ap test (omega arith) ∙ failed,
                  refl,
                  subst (Sends Good 1 port) (append-nil p.probe.packets)
                      (Sends-probe Good 0 port p.probe.packets [] p.good p.few done),
                );
              },
            )
      ]
