-- ===== src/Dns/Dnsenum.antt =====
-- Fingerprinting/Dnsenum/dnsenum.c
pub mod Laws
pub mod Query
use c_network_tools.Base.{
  ℕ, zero, suc, ◌+◌, ◌-◌, ◌*◌, ◌%◌, Bool, true, false, List, [], ◌∷◌, ◌++◌, Option, some, none,
  ◌>>=◌, u8, u16, ByteOrder, little, big, bytes16, htons, ◌==◌, if◌then◌else◌, length, take, drop,
  store, strlen, read_word, ℤ, is_neg,
}
use c_network_tools.Dns.Name.{dot}
use c_network_tools.Dns.HexDump.{dump}

abbrev pub buffer_size : ℕ
buffer_size = 512

-- `struct DNS_HEADER`
pub record DnsHeader : Type 0 where
  pub id : ℕ
  pub rd : ℕ
  pub tc : ℕ
  pub aa : ℕ
  pub opcode : ℕ
  pub qr : ℕ
  pub rcode : ℕ
  pub cd : ℕ
  pub ad : ℕ
  pub z : ℕ
  pub ra : ℕ
  pub qdcount : ℕ
  pub ancount : ℕ
  pub nscount : ℕ
  pub arcount : ℕ

-- The two bytes of bit fields: the compiler fills them from the low bit on a little-endian host
-- and from the high bit on a big-endian one.
abbrev bit_fields : ByteOrder → DnsHeader → List ℕ
bit_fields little h =
    (h.rd + h.tc * 2 + h.aa * 4 + h.opcode * 8 + h.qr * 128)
    ∷ (h.rcode + h.cd * 16 + h.ad * 32 + h.z * 64 + h.ra * 128)
    ∷ []
bit_fields big h =
    (h.rd * 128 + h.tc * 64 + h.aa * 32 + h.opcode * 2 + h.qr)
    ∷ (h.rcode * 16 + h.cd * 8 + h.ad * 4 + h.z * 2 + h.ra)
    ∷ []

abbrev pub header_bytes : ByteOrder → DnsHeader → List ℕ
header_bytes o h =
    bytes16 o h.id
    ++ (bit_fields o h
        ++ (bytes16 o h.qdcount
            ++ (bytes16 o h.ancount ++ (bytes16 o h.nscount ++ bytes16 o h.arcount))))

-- `sizeof(struct DNS_HEADER)`
abbrev pub sizeof_header : ℕ
sizeof_header = 12

-- `strchr(s, '.') - s`; `none` is a null pointer.
unfoldable pub strchr_dot : List ℕ → Option ℕ
strchr_dot [] = none
strchr_dot (c ∷ cs) =
    let rest = strchr_dot cs in
    if c == dot then some 0 else (elim rest [ none ↦ none | some k ↦ some (suc k) ])

-- `encode_domain_name` writing from `dest` on. The loop shortens `domain` by a label each time, so
-- fuel above its length is enough; `none` is a write outside the buffer.
unfoldable pub encode_loop : ℕ → List ℕ → ℕ → List ℕ → Option (List ℕ)
unfolding strchr_dot
encode_loop zero buf dest domain = none
encode_loop (suc fuel) buf dest domain = elim (strchr_dot domain) [
  | some k ↦ do
    buf ← store buf dest (u8 k ∷ [])
    buf ← store buf (dest + 1) (take k domain)
    encode_loop fuel buf (dest + 1 + k) (drop (suc k) domain)
  | none ↦ do
    buf ← store buf dest (u8 (length domain) ∷ [])
    buf ← store buf (dest + 1) (domain ++ 0 ∷ [])
    store buf (dest + 1 + length domain) (0 ∷ [])
]

unfoldable pub encode_domain_name : List ℕ → ℕ → List ℕ → Option (List ℕ)
unfolding encode_loop
encode_domain_name buf dest domain = encode_loop (suc (length domain)) buf dest domain

-- The header that `send_dns_query` fills in, in a process with the id `pid`.
unfoldable pub query_header : ByteOrder → ℕ → DnsHeader
query_header o pid = record {
  id = htons o pid;
  rd = 1;
  tc = 0;
  aa = 0;
  opcode = 0;
  qr = 0;
  rcode = 0;
  cd = 0;
  ad = 0;
  z = 0;
  ra = 0;
  qdcount = htons o 1;
  ancount = 0;
  nscount = 0;
  arcount = 0;
}

-- The part of `send_dns_query` that fills the buffer, which held `garbage`, and `query_size`.
unfoldable pub build_query : ByteOrder → ℕ → List ℕ → List ℕ → ℕ → Option (List ℕ × ℕ)
unfolding query_header encode_domain_name strlen
build_query o pid garbage domain query_type = do
  buffer ← store garbage 0 (header_bytes o (query_header o pid))
  buffer ← encode_domain_name buffer sizeof_header domain
  n ← strlen (drop sizeof_header buffer)
  let qtype = sizeof_header + n + 1
  buffer ← store buffer qtype (bytes16 o (htons o query_type))
  let qclass = qtype + 2
  buffer ← store buffer qclass (bytes16 o (htons o 1))
  some (buffer, qclass + 2)

-- What `send_dns_query` ends with; the datagram is what went to the server.
pub data Outcome : Type 0 where
  socket_failed : Outcome
  send_failed : List ℕ → Outcome
  no_answer : List ℕ → Outcome
  printed : List ℕ → List ℕ → Outcome

-- The answers of `socket`, `sendto` and `recvfrom`: the last gives the bytes that it received, and
-- `none` where it returns a negative number.
pub record Server : Type 0 where
  pub socket : ℤ
  pub sendto : ℤ
  pub recvfrom : Option (List ℕ)

unfoldable pub send_dns_query : ByteOrder → ℕ → List ℕ → Server → List ℕ → ℕ → Option Outcome
unfolding build_query dump
send_dns_query o pid garbage server domain query_type = do
  (buffer, query_size) ← build_query o pid garbage domain query_type
  let datagram = take query_size buffer
  some (
      if is_neg server.socket
      then socket_failed
      else if is_neg server.sendto
      then send_failed datagram
      else elim server.recvfrom [
        | none ↦ no_answer datagram
        | some reply ↦ printed datagram (dump 0 reply)
      ])

-- The `switch` of `main`; `none` is its default, which ends the program with status 1.
unfoldable pub query_type_of : ℕ → Option ℕ
query_type_of choice =
    if choice == 1
    then some 1
    else if choice == 2
    then some 2
    else if choice == 3
    then some 15
    else if choice == 4
    then some 5
    else if choice == 5
    then some 6
    else if choice == 6
    then some 16
    else none

-- `word` and `choice` are what `scanf` reads into the 256 bytes of `domain` and into `query_type`;
-- the inner `none` is the end with status 1 for a choice that is none of the six.
unfoldable pub main : ByteOrder → ℕ → List ℕ → Server → List ℕ → ℕ → Option (Option Outcome)
unfolding send_dns_query query_type_of
main o pid garbage server word choice = do
  domain ← read_word 256 word
  elim (query_type_of choice) [
    | none ↦ some none
    | some query_type ↦ do
      outcome ← send_dns_query o pid garbage server domain query_type
      some (some outcome)
  ]
