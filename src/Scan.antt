-- ===== src/Scan.antt =====
-- The port scanners of Network_Mapping that use the kernel's sockets. A probe of a port is a
-- function of what the kernel answers; its result holds the calls that open and close sockets.
pub mod Loop
pub mod Connect
pub mod Sctp
pub mod Leaky
pub mod Udp
pub mod Syn
use c_network_tools.Base.{
  ℕ, zero, suc, ◌+◌, Bool, true, false, List, [], ◌∷◌, ◌++◌, Option, some, none, ℤ, ◌==◌, not,
}

pub data Call : Type 0 where
  opened : ℤ → Call
  attempted : ℤ → Call
  sent : ℤ → Call
  closed : ℤ → Call

-- A probe returns a number, or ends the program with a status.
pub data Verdict : Type 0 where
  returned : ℕ → Verdict
  exited : ℕ → Verdict

pub record Probe : Type 0 where
  pub calls : List Call
  pub verdict : Verdict

-- A line of the scan's output: a port, and whether it is reported OPEN.
pub record Line : Type 0 where
  pub port : ℕ
  pub is_open : Bool

-- What a scan prints and calls; the status is there if a probe ended the program.
pub record Scan : Type 0 where
  pub lines : List Line
  pub calls : List Call
  pub status : Option ℕ

-- What the kernel answers to the calls that are made for a port.
pub record Kernel : Type 0 where
  pub socket : ℕ → ℤ
  pub inet_pton : ℕ → ℤ
  pub setsockopt : ℕ → ℤ
  pub connect : ℕ → ℤ
  pub sendto : ℕ → ℤ
  pub recvfrom : ℕ → ℤ

-- `for (port = ...) if (probe(ip, port)) ... else ...`, with `left` ports to go.
unfoldable pub scan_loop : (ℕ → Probe) → ℕ → ℕ → Scan
scan_loop probe zero port = record { lines = []; calls = []; status = none }
scan_loop probe (suc left) port =
    let rest = scan_loop probe left (port + 1) in
    elim (probe port).verdict [
      | exited status ↦ record { lines = []; calls = (probe port).calls; status = some status }
      | returned value ↦ record {
        lines = record { port = port; is_open = not (value == 0) } ∷ rest.lines;
        calls = (probe port).calls ++ rest.calls;
        status = rest.status;
      }
    ]

pub count_opened : List Call → ℕ
count_opened [] = 0
count_opened (opened fd ∷ calls) = suc (count_opened calls)
count_opened (c ∷ calls) = count_opened calls

pub count_closed : List Call → ℕ
count_closed [] = 0
count_closed (closed fd ∷ calls) = suc (count_closed calls)
count_closed (c ∷ calls) = count_closed calls
