-- ===== src/Dns/Dig.antt =====
-- Fingerprinting/Dig/dig.c; `build_query` and `parse_response` of Fingerprinting/Host/host.c are
-- the same functions.
pub mod Query
pub mod Reply
use c_network_tools.Base.{
  ℕ, zero, suc, ◌+◌, ◌-◌, Bool, true, false, List, [], ◌∷◌, ◌++◌, Option, some, none, ◌>>=◌, u8,
  ByteOrder, bytes16, htons, ◌==◌, if◌then◌else◌, length, take, drop, store, strlen, ℤ, is_neg,
  load16, load,
}
use c_network_tools.Dns.Name.{dot}

-- `DNS_HEADER`
pub record DnsHeader : Type 0 where
  pub id : ℕ
  pub flags : ℕ
  pub questions : ℕ
  pub answer_rrs : ℕ
  pub authority_rrs : ℕ
  pub additional_rrs : ℕ

abbrev pub header_bytes : ByteOrder → DnsHeader → List ℕ
header_bytes o h =
    bytes16 o h.id
    ++ (bytes16 o h.flags
        ++ (bytes16 o h.questions
            ++ (bytes16 o h.answer_rrs
                ++ (bytes16 o h.authority_rrs ++ bytes16 o h.additional_rrs))))

-- `DNS_QUESTION`
pub record DnsQuestion : Type 0 where
  pub qtype : ℕ
  pub qclass : ℕ

abbrev pub question_bytes : ByteOrder → DnsQuestion → List ℕ
question_bytes o q = bytes16 o q.qtype ++ bytes16 o q.qclass

abbrev pub sizeof_header : ℕ
sizeof_header = 12

abbrev pub sizeof_question : ℕ
sizeof_question = 4

-- `DNS_RR` has ten bytes of fields, and the compiler pads it to the alignment of `ttl`.
abbrev pub sizeof_rr : ℕ
sizeof_rr = 12

unfoldable pub query_header : ByteOrder → DnsHeader
query_header o = record {
  id = htons o 12345;
  flags = htons o 0x0100;
  questions = htons o 1;
  answer_rrs = 0;
  authority_rrs = 0;
  additional_rrs = 0;
}

-- The loop over the rest of `domain` from index `i` on, with the final write to `qname[j]`; `size`
-- is `strlen(domain)`, and `none` is a write outside the buffer.
unfoldable pub length_loop : ℕ → ℕ → ℕ → List ℕ → List ℕ → Option (List ℕ)
length_loop size i j [] buf = store buf (sizeof_header + j) (u8 (size - j) ∷ [])
length_loop size i j (c ∷ domain) buf =
    if c == dot
    then (do
      buf ← store buf (sizeof_header + j) (u8 (i - j) ∷ [])
      length_loop size (i + 1) (i + 1) domain buf)
    else length_loop size (i + 1) j domain buf

-- The buffer and `*query_len`, from a buffer that held `garbage`.
unfoldable pub build_query : ByteOrder → List ℕ → List ℕ → Option (List ℕ × ℕ)
unfolding length_loop query_header
build_query o garbage domain = do
  buf ← store garbage 0 (header_bytes o (query_header o))
  buf ← length_loop (length domain) 0 0 domain buf
  let question : DnsQuestion = record { qtype = htons o 1; qclass = htons o 1 }
  buf ← store buf (sizeof_header + length domain + 1) (question_bytes o question)
  some (buf, sizeof_header + length domain + 2 + sizeof_question)

-- The address that is printed, if one is; the outer `none` is a read outside the buffer.
unfoldable pub parse_response : ByteOrder → List ℕ → Option (Option (List ℕ))
unfolding strlen load16 load
parse_response o buf = do
  n ← strlen (drop sizeof_header buf)
  let rr = sizeof_header + n + 2 + sizeof_question
  type ← load16 o buf rr
  if type == htons o 1 then (do ip ← load buf (rr + sizeof_rr) 4; some (some ip)) else some none

-- The answers of `socket`, `sendto` and `recvfrom`, which writes to the front of the buffer.
pub record Server : Type 0 where
  pub socket : ℤ
  pub sendto : ℤ
  pub recvfrom : Option (List ℕ)

-- `main`: its status, the datagram if one was sent, and the address if one was printed.
pub data Outcome : Type 0 where
  socket_failed : Outcome
  send_failed : List ℕ → Outcome
  receive_failed : List ℕ → Outcome
  finished : List ℕ → Option (List ℕ) → Outcome

unfoldable pub main : ByteOrder → List ℕ → Server → List ℕ → Option Outcome
unfolding build_query parse_response
main o garbage server domain = if is_neg server.socket then some socket_failed else (do
  (buffer, query_len) ← build_query o garbage domain
  let datagram = take query_len buffer
  if is_neg server.sendto then some (send_failed datagram) else elim server.recvfrom [
    | none ↦ some (receive_failed datagram)
    | some reply ↦ do
      buffer ← store buffer 0 reply
      ip ← parse_response o buffer
      some (finished datagram ip)
  ])
