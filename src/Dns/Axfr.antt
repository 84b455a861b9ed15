-- ===== src/Dns/Axfr.antt =====
-- Fingerprinting/AXFR(DNS Zone Transfer)/axfr.c
pub mod Laws
use c_network_tools.Base.{
  ℕ, zero, suc, ◌+◌, Bool, true, false, List, [], ◌∷◌, ◌++◌, Option, some, none, ◌>>=◌, ByteOrder,
  bytes16, htons, if◌then◌else◌, length, take, store, replicate, ltb, ℤ, is_neg,
}
use c_network_tools.Dns.HexDump.{dump}

abbrev pub buffer_size : ℕ
buffer_size = 512

abbrev pub dns_axfr : ℕ
dns_axfr = 252

-- `struct DNSHeader`
pub record DnsHeader : Type 0 where
  pub id : ℕ
  pub flags : ℕ
  pub qdcount : ℕ
  pub ancount : ℕ
  pub nscount : ℕ
  pub arcount : ℕ

abbrev pub header_bytes : ByteOrder → DnsHeader → List ℕ
header_bytes o h =
    bytes16 o h.id
    ++ (bytes16 o h.flags
        ++ (bytes16 o h.qdcount
            ++ (bytes16 o h.ancount ++ (bytes16 o h.nscount ++ bytes16 o h.arcount))))

abbrev pub sizeof_header : ℕ
sizeof_header = 12

abbrev pub sizeof_question : ℕ
sizeof_question = 4

-- The header in the cleared buffer, with the three fields that are set.
unfoldable pub query_header : ByteOrder → DnsHeader
query_header o = record {
  id = htons o 12345;
  flags = htons o 0x0100;
  qdcount = htons o 1;
  ancount = 0;
  nscount = 0;
  arcount = 0;
}

-- The datagram of `sendAXFRQuery`; `none` is an access outside the buffer. `question` points
-- behind the header, where the name is copied to as well.
unfoldable pub axfr_query : ByteOrder → List ℕ → Option (List ℕ)
unfolding query_header
axfr_query o domain = do
  buffer ← store (replicate buffer_size 0) 0 (header_bytes o (query_header o))
  buffer ← store buffer sizeof_header (domain ++ 0 ∷ [])
  buffer ← store buffer sizeof_header (bytes16 o (htons o dns_axfr))
  buffer ← store buffer (sizeof_header + 2) (bytes16 o (htons o 1))
  some (take (sizeof_header + length domain + 1 + sizeof_question) buffer)

-- How the receiving ends: with a short message, with an error, which ends the program, or not
-- yet, while `recv` waits for more than was sent.
pub data End : Type 0 where
  finished failed waiting : End

-- `receiveAXFRResponse` on the answers of `recv`, `none` for a negative one: what is printed for
-- each message, its length and its bytes.
unfoldable pub receive : List (Option (List ℕ)) → List (ℕ × List ℕ) × End
unfolding dump
receive [] = ([], waiting)
receive (none ∷ answers) = ([], failed)
receive (some bytes ∷ answers) =
    let (printed, ending) = receive answers in
    if ltb (length bytes) buffer_size
    then ((length bytes, dump 0 bytes) ∷ [], finished)
    else ((length bytes, dump 0 bytes) ∷ printed, ending)

-- `main`: the datagram if one was sent, what is printed, and the end.
pub data Outcome : Type 0 where
  socket_failed : Outcome
  send_failed : List ℕ → Outcome
  transferred : List ℕ → List (ℕ × List ℕ) → End → Outcome

unfoldable pub main : ByteOrder → ℤ → ℤ → List (Option (List ℕ)) → List ℕ → Option Outcome
unfolding axfr_query receive
main o socket sendto answers domain = if is_neg socket then some socket_failed else (do
  datagram ← axfr_query o domain
  let (printed, ending) = receive answers
  some (if is_neg sendto then send_failed datagram else transferred datagram printed ending))
