-- ===== src/Scan/Loop.antt =====
-- The loop over the ports, for any probe.
use c_network_tools.Base.{
  ℕ, zero, suc, ◌+◌, ◌≡◌, refl, ap₂, Bool, true, false, List, [], ◌∷◌, ◌++◌, some, none, arith,
  ◌==◌, not,
}
use c_network_tools.Scan.{
  Call, opened, attempted, sent, closed, returned, exited, Probe, Line, Scan, scan_loop,
  count_opened, count_closed,
}

-- The lines for `n` ports from a port on, by a test.
abbrev pub lines_by : (ℕ → Bool) → ℕ → ℕ → List Line
lines_by test zero port = []
lines_by test (suc n) port =
    record { port = port; is_open = test port } ∷ lines_by test n (port + 1)

pub count_opened-append :
    (xs ys : List Call) → count_opened (xs ++ ys) ≡ count_opened xs + count_opened ys
unfolding count_opened
count_opened-append [] ys = omega arith
count_opened-append (opened fd ∷ xs) ys = omega (arith, count_opened-append xs ys)
count_opened-append (attempted fd ∷ xs) ys = count_opened-append xs ys
count_opened-append (sent fd ∷ xs) ys = count_opened-append xs ys
count_opened-append (closed fd ∷ xs) ys = count_opened-append xs ys

pub count_closed-append :
    (xs ys : List Call) → count_closed (xs ++ ys) ≡ count_closed xs + count_closed ys
unfolding count_closed
count_closed-append [] ys = omega arith
count_closed-append (closed fd ∷ xs) ys = omega (arith, count_closed-append xs ys)
count_closed-append (attempted fd ∷ xs) ys = count_closed-append xs ys
count_closed-append (sent fd ∷ xs) ys = count_closed-append xs ys
count_closed-append (opened fd ∷ xs) ys = count_closed-append xs ys

module _ (probe : ℕ → Probe) (left port : ℕ) where
  -- A round whose probe returns, and one whose probe ends the program.
  pub scan_loop-returned :
      (value : ℕ)
      → (probe port).verdict ≡ returned value
      → scan_loop probe (suc left) port ≡ (
          let rest = scan_loop probe left (port + 1) in
          record {
            lines = record { port = port; is_open = not (value == 0) } ∷ rest.lines;
            calls = (probe port).calls ++ rest.calls;
            status = rest.status;
          })
  unfolding scan_loop
  scan_loop-returned value e = rw (e, scan_loop)

  pub scan_loop-exited :
      (status : ℕ)
      → (probe port).verdict ≡ exited status
      → scan_loop probe (suc left) port
        ≡ record { lines = []; calls = (probe port).calls; status = some status }
  unfolding scan_loop
  scan_loop-exited status e = rw (e, scan_loop)

-- What a probe returns for a test.
abbrev pub bit : Bool → ℕ
bit true = 1
bit false = 0

pub bit_nonzero : (b : Bool) → not (bit b == 0) ≡ b
bit_nonzero true = refl
bit_nonzero false = refl

-- A scan by a probe that always returns the value of a test and closes what it opens.
pub record IsComplete (test : ℕ → Bool) (n port : ℕ) (s : Scan) : Type 0 where
  pub lines_right : s.lines ≡ lines_by test n port
  pub balanced : count_opened s.calls ≡ count_closed s.calls
  pub runs_on : s.status ≡ none

pub scan_loop-IsComplete :
    (probe : ℕ → Probe) (test : ℕ → Bool)
    → ((p : ℕ) → (probe p).verdict ≡ returned (bit (test p)))
    → ((p : ℕ) → count_opened (probe p).calls ≡ count_closed (probe p).calls)
    → (n port : ℕ) → IsComplete test n port (scan_loop probe n port)
scan_loop-IsComplete probe test right closes zero port =
    unfold scan_loop in
    record {
      lines_right = refl;
      balanced = unfold count_opened count_closed in refl;
      runs_on = refl;
    }
scan_loop-IsComplete probe test right closes (suc n) port =
    let rest = scan_loop-IsComplete probe test right closes n (port + 1) in
    rw (scan_loop-returned probe n port (bit (test port)) (right port)) (record {
      lines_right =
          ap₂ (λ b ls. record { port = port; is_open = b } ∷ ls) (bit_nonzero (test port))
            rest.lines_right;
      balanced = omega (
        arith,
        count_opened-append (probe port).calls (scan_loop probe n (port + 1)).calls,
        count_closed-append (probe port).calls (scan_loop probe n (port + 1)).calls,
        closes port,
        rest.balanced,
      );
      runs_on = rest.runs_on;
    })
