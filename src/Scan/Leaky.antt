-- ===== src/Scan/Leaky.antt =====
-- The loop over the ports for a probe that ends the program when it does not succeed, and never
-- closes its socket.
use c_network_tools.Base.{
  ℕ, zero, suc, ◌+◌, ◌≤◌, ◌<◌, ◌≡◌, refl, ◌∙◌, ap, ap₂, Bool, true, false, Bool-cases, inl, inr,
  ◌⊎◌, ◌∷◌, some, none, arith,
}
use c_network_tools.Scan.{returned, exited, Probe, Scan, scan_loop, count_opened, count_closed}
use c_network_tools.Scan.Loop.{
  bit, bit_nonzero, lines_by, scan_loop-returned, scan_loop-exited, count_opened-append,
  count_closed-append,
}

module _ (ok test : ℕ → Bool) where
  -- All the probes of `n` ports from a port on succeed.
  abbrev pub AllOk : ℕ → ℕ → Type 0
  AllOk zero port = Unit
  AllOk (suc n) port = (ok port ≡ true) × AllOk n (port + 1)

  -- A scan of `left` ports: `n` probes succeed, each with a line by the test, and then either no
  -- port is left or a probe that does not ends the program. A socket is opened for each port, and
  -- none is closed.
  pub record IsLeakyScan (left port : ℕ) (s : Scan) : Type 0 where
    pub n : ℕ
    pub in_range : n ≤ left
    pub all_ok : AllOk n port
    pub lines_right : s.lines ≡ lines_by test n port
    pub opens : n ≤ count_opened s.calls
    pub closes_none : count_closed s.calls ≡ 0
    pub ends :
        ((n ≡ left) × (s.status ≡ none))
        ⊎ ((n < left) × (ok (port + n) ≡ false) × (s.status ≡ some 1))

module _ (ok test : ℕ → Bool) (probe : ℕ → Probe)
    (right : (port : ℕ)
      → ok port ≡ true
      → ((probe port).verdict ≡ returned (bit (test port)))
        × (count_opened (probe port).calls ≡ 1)
        × (count_closed (probe port).calls ≡ 0))
    (wrong : (port : ℕ)
      → ok port ≡ false
      → ((probe port).verdict ≡ exited 1) × (count_closed (probe port).calls ≡ 0)) where
  pub scan_loop-IsLeakyScan :
      (left port : ℕ) → IsLeakyScan ok test left port (scan_loop probe left port)
  scan_loop-IsLeakyScan zero port =
      unfold scan_loop count_closed in
      record {
        n = 0;
        in_range = omega arith;
        all_ok = tt;
        lines_right = refl;
        opens = omega arith;
        closes_none = refl;
        ends = inl (refl, refl);
      }
  scan_loop-IsLeakyScan (suc left) port = elim (Bool-cases (ok port)) [
    | inl good ↦
        let rest = scan_loop-IsLeakyScan left (port + 1) in
        let (v, o, c) = right port good in
        let at : port + 1 + rest.n ≡ port + suc rest.n = omega arith in
        rw (scan_loop-returned probe left port (bit (test port)) v) (record {
          n = suc rest.n;
          in_range = omega (arith, rest.in_range);
          all_ok = (good, rest.all_ok);
          lines_right =
              ap₂ (λ b ls. record { port = port; is_open = b } ∷ ls) (bit_nonzero (test port))
                rest.lines_right;
          opens = omega (
            arith,
            count_opened-append (probe port).calls (scan_loop probe left (port + 1)).calls,
            o,
            rest.opens,
          );
          closes_none = omega (
            arith,
            count_closed-append (probe port).calls (scan_loop probe left (port + 1)).calls,
            c,
            rest.closes_none,
          );
          ends = elim rest.ends [
            | inl (all, st) ↦ inl (omega arith, st)
            | inr (few, unsent, st) ↦ inr (omega arith, rw (← at) unsent, st)
          ];
        })
    | inr failed ↦
        let (v, c) = wrong port failed in
        let at : port ≡ port + 0 = omega arith in
        rw (scan_loop-exited probe left port 1 v) (record {
          n = 0;
          in_range = omega arith;
          all_ok = tt;
          lines_right = refl;
          opens = omega arith;
          closes_none = c;
          ends = inr (omega arith, ap ok (omega arith) ∙ failed, refl);
        })
  ]
