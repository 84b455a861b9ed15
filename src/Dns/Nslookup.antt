-- ===== src/Dns/Nslookup.antt =====
-- Fingerprinting/Nslookup/nslookup.c
pub mod Reply
pub mod Overrun
pub mod Encode
pub mod Query
pub mod Exchange
use c_network_tools.Base.{
  ℕ, zero, suc, ◌+◌, ◌-◌, ◌*◌, Bool, true, false, List, [], ◌∷◌, ◌++◌, Option, some, none, ◌>>=◌,
  u8, ByteOrder, bytes16, word16, htons, ntohs, ◌==◌, if◌then◌else◌, length, take, drop, get_elem?,
  store, strlen, ℤ, is_neg, load16, load,
}
use c_network_tools.Dns.Name.{dot}

-- `struct DNS_HEADER`
pub record DnsHeader : Type 0 where
  pub id : ℕ
  pub flags : ℕ
  pub qd_count : ℕ
  pub an_count : ℕ
  pub ns_count : ℕ
  pub ar_count : ℕ

abbrev pub header_bytes : ByteOrder → DnsHeader → List ℕ
header_bytes o h =
    bytes16 o h.id
    ++ (bytes16 o h.flags
        ++ (bytes16 o h.qd_count
            ++ (bytes16 o h.an_count ++ (bytes16 o h.ns_count ++ bytes16 o h.ar_count))))

-- `sizeof(struct DNS_HEADER)`
abbrev pub sizeof_header : ℕ
sizeof_header = 12

-- The loop of `encode_domain_name` over the rest of `host`, from index `i` on; `dns_format` is the
-- buffer from `base` on, and `none` is a write outside the buffer.
unfoldable pub encode_loop : ℕ → List ℕ → ℕ → ℕ → List ℕ → Option (List ℕ)
encode_loop base buf i lock [] = some buf
encode_loop base buf i lock (c ∷ host) =
    if c == dot
    then (do
      buf ← store buf (base + lock) (u8 (i - lock) ∷ [])
      encode_loop base buf (i + 1) (i + 1) host)
    else (do buf ← store buf (base + i + 1) (c ∷ []); encode_loop base buf (i + 1) lock host)

-- `strcat(dns_format, ".")` and the loop. The `strcat` reads what the buffer held before.
unfoldable pub encode_domain_name : ℕ → List ℕ → List ℕ → Option (List ℕ)
unfolding encode_loop strlen
encode_domain_name base buf host = do
  n ← strlen (drop base buf)
  buf ← store buf (base + n) (dot ∷ 0 ∷ [])
  encode_loop base buf 0 0 host

unfoldable pub query_header : ByteOrder → DnsHeader
query_header o = record {
  id = htons o 1234;
  flags = htons o 0x0100;
  qd_count = htons o 1;
  an_count = 0;
  ns_count = 0;
  ar_count = 0;
}

-- The buffer and the length of the query, from a buffer that held `garbage`.
unfoldable pub create_dns_query : ByteOrder → List ℕ → List ℕ → Option (List ℕ × ℕ)
unfolding encode_domain_name query_header
create_dns_query o garbage host = do
  buffer ← store garbage 0 (header_bytes o (query_header o))
  buffer ← encode_domain_name sizeof_header buffer host
  n ← strlen (drop sizeof_header buffer)
  let query_length = n + 1
  buffer ← store buffer (sizeof_header + query_length) (bytes16 o (htons o 1))
  buffer ← store buffer (sizeof_header + query_length + 2) (bytes16 o (htons o 1))
  some (buffer, sizeof_header + query_length + 4)

-- The loop over the answers that are left, with `reader` as an index; the addresses printed.
unfoldable pub parse_answers : ByteOrder → List ℕ → ℕ → ℕ → Option (List (List ℕ))
parse_answers o buf zero reader = some []
parse_answers o buf (suc left) reader = do
  type ← load16 o buf (reader + 2)
  class ← load16 o buf (reader + 2 + 2)
  data_length ← load16 o buf (reader + 2 + 8)
  let at = reader + 2 + 8 + 2
  if ntohs o type == 1
      then (do
        ip ← load buf at 4
        ips ← parse_answers o buf left (at + ntohs o data_length)
        some (ip ∷ ips))
      else parse_answers o buf left (at + ntohs o data_length)

-- The number of answers and the addresses that are printed. `length` is not used.
unfoldable pub parse_dns_response : ByteOrder → List ℕ → ℕ → Option (ℕ × List (List ℕ))
unfolding parse_answers strlen
parse_dns_response o buffer length = do
  an_count ← load16 o buffer 6
  n ← strlen (drop sizeof_header buffer)
  ips ← parse_answers o buffer (ntohs o an_count) (sizeof_header + n + 5)
  some (ntohs o an_count, ips)

-- `send_dns_query`: how it ends, with the datagram that was sent.
pub data Outcome : Type 0 where
  socket_failed : Outcome
  no_answer : List ℕ → Outcome
  printed : List ℕ → ℕ → List (List ℕ) → Outcome

-- The answers of `socket` and of `recvfrom`, which writes to the front of the buffer.
pub record Server : Type 0 where
  pub socket : ℤ
  pub recvfrom : Option (List ℕ)

unfoldable pub send_dns_query : ByteOrder → List ℕ → Server → List ℕ → Option Outcome
unfolding create_dns_query parse_dns_response
send_dns_query o garbage server host = if is_neg server.socket then some socket_failed else (do
  (buffer, query_length) ← create_dns_query o garbage host
  let datagram = take query_length buffer
  elim server.recvfrom [
    | none ↦ some (no_answer datagram)
    | some reply ↦ do
      buffer ← store buffer 0 reply
      (count, ips) ← parse_dns_response o buffer (length reply)
      some (printed datagram count ips)
  ])

-- The name "example.com"; the name server is an argument of the calls only.
abbrev pub host : List ℕ
host = b'e' ∷ b'x' ∷ b'a' ∷ b'm' ∷ b'p' ∷ b'l' ∷ b'e' ∷ b'.' ∷ b'c' ∷ b'o' ∷ b'm' ∷ []

unfoldable pub main : ByteOrder → List ℕ → Server → Option Outcome
unfolding send_dns_query
main o garbage server = send_dns_query o garbage server host
