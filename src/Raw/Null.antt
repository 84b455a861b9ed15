-- ===== src/Raw/Null.antt =====
-- Network_Mapping/TCP_NULL_SCAN/tcp_null_scan.c. The structures and `checksum`, which it uses
-- without declaring them, are those of tcp_fin_scan.c; its second declarations of `from` and
-- `fromlen` are left out.
pub mod Laws
use Prim.Native.String.{String}
use c_network_tools.Base.{
  ℕ, ◌+◌, Bool, true, false, List, [], ◌∷◌, ◌++◌, Option, some, none, ◌>>=◌, ◌==◌, not, ByteOrder,
  ℤ, negsuc, pos, is_neg, is_zero, if◌then◌else◌, store, get_elem?,
}
use c_network_tools.Checksum
use c_network_tools.Raw.{
  ip_bytes, tcp_bytes, pseudo_bytes, sizeof_ip, sizeof_tcp, sizeof_pseudo, ip_filled, tcp_filled,
  pseudo_filled,
}

-- The answers of the calls, what `recvfrom` writes to the front of `response`, the address in
-- `server`, and what `ip_sum` and `response` held before.
pub record World : Type 0 where
  pub socket : ℤ
  pub setsockopt : ℤ
  pub inet_pton : ℤ
  pub sendto : ℤ
  pub recvfrom : Option (List ℕ)
  pub s_addr : ℕ
  pub ip_sum : ℕ
  pub response : List ℕ

-- The calls that open and close the socket, and the packet that is given to `sendto`.
pub data Call : Type 0 where
  opened closed : Call
  given : List ℕ → Call

-- How `tcp_null_scan` ends: with the end of the program, with -1 before or after an answer is waited
-- for, or with a line that says whether the port is OPEN.
pub data Outcome : Type 0 where
  exited : ℕ → Outcome
  send_failed no_answer : Outcome
  reported : Bool → Outcome

pub record Run : Type 0 where
  pub calls : List Call
  pub outcome : Outcome

module _ (o : ByteOrder) (inet_addr : String → ℕ) where
  -- The bytes that are sent. The last checksum is stored in `tcphd` when `packet` already holds its
  -- copy.
  unfoldable pub null_packet : ℕ → ℕ → ℕ → Option (List ℕ)
  unfolding ip_filled tcp_filled pseudo_filled
  null_packet s_addr garbage port = do
    let iphdr = ip_filled o inet_addr sizeof_tcp s_addr garbage
    ip_sum ← Checksum.checksum o (ip_bytes o iphdr) sizeof_ip
    let tcphd = tcp_filled o 0x00 port
    let pseudo_packet =
        pseudo_bytes o (pseudo_filled o inet_addr sizeof_tcp s_addr) ++ tcp_bytes o tcphd
    checksum ← Checksum.checksum o pseudo_packet (sizeof_pseudo + sizeof_tcp)
    let packet =
        ip_bytes o (record iphdr { ip_sum = ip_sum })
        ++ tcp_bytes o (record tcphd { checksum = checksum })
    again ← Checksum.checksum o packet (sizeof_ip + sizeof_tcp)
    some packet

  -- `tcph->flags` is the byte 13 of the header behind the first 20 bytes.
  unfoldable pub tcp_null_scan : World → ℕ → Option Run
  unfolding null_packet
  tcp_null_scan w port =
      if is_neg w.socket
      then some (record { calls = []; outcome = exited 1 })
      else if is_neg w.setsockopt
      then some (record { calls = opened ∷ closed ∷ []; outcome = exited 1 })
      else if not (is_zero w.inet_pton)
      then some (record { calls = opened ∷ closed ∷ []; outcome = exited 1 })
      else (do
        packet ← null_packet w.s_addr w.ip_sum port
        let calls = opened ∷ given packet ∷ closed ∷ []
        if is_neg w.sendto
            then some (record { calls = opened ∷ given packet ∷ []; outcome = send_failed })
            else elim w.recvfrom [
              | none ↦ some (record { calls = calls; outcome = no_answer })
              | some bytes ↦ do
                response ← store w.response 0 bytes
                flags ← get_elem? response (sizeof_ip + 13)
                if flags == 0x14
                    then some (record { calls = calls; outcome = reported false })
                    else some (record { calls = calls; outcome = reported true })
            ])
