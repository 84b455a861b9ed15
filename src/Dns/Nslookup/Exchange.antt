-- ===== src/Dns/Nslookup/Exchange.antt =====
-- A run of nslookup.c against a name server that answers.
use c_network_tools.Base.{
  ℕ, ◌+◌, ◌-◌, u8, htons, bytes16, Holds-then, ◌^◌, false, ◌<◌, ◌≤◌, ◌≡◌, refl, ◌∙◌, List, [], ◌∷◌,
  ◌++◌, Option, some, ◌>>=◌, ByteOrder, arith, length, store, strlen, drop, replicate,
  length-replicate, store-write, write_start, length-write, leb, NoNul, is_neg, Holds, Holds-if,
  Holds-bind, Holds-some, Holds-map, ◌==◌,
}
use c_network_tools.Dns.Name.{dot, labels, Proper}
use c_network_tools.Dns.Nslookup.{
  encode_loop, encode_domain_name, create_dns_query, send_dns_query, Server, printed, query_header,
  header_bytes, sizeof_header,
}
use c_network_tools.Dns.Nslookup.Query.{question_for, create_dns_query_loses_last_label}
use c_network_tools.Dns.Nslookup.Reply.{
  Answer, AreAnswers, addresses, reply, parse_dns_response-reply,
}

abbrev SameSize : List ℕ → List ℕ → Type 0
SameSize buf b = length b ≡ length buf

store_same : (buf : List ℕ) (at : ℕ) (bs b : List ℕ) → store buf at bs ≡ some b → SameSize buf b
store_same buf at bs b e = Holds-some (SameSize buf) (store buf at bs) b e (
    Holds-if (SameSize buf) (leb (at + length bs) (length buf)) _ _ (λ e. length-write buf at bs)
      (λ e. tt))

-- A write, and what is done behind it.
store_then :
    {A : Type 0} (P : A → Type 0) (buf : List ℕ) (at : ℕ) (bs : List ℕ) (f : List ℕ → Option A)
    → ((b : List ℕ) → SameSize buf b → Holds P (f b))
    → Holds P (store buf at bs >>= f)
store_then P buf at bs f h =
    Holds-bind P (store buf at bs) f (λ b e. h b (store_same buf at bs b e))

encode_loop-SameSize :
    (base : ℕ) (buf : List ℕ) (i lock : ℕ) (host : List ℕ)
    → Holds (SameSize buf) (encode_loop base buf i lock host)
unfolding encode_loop
encode_loop-SameSize base buf i lock [] = refl
encode_loop-SameSize base buf i lock (c ∷ host) =
    Holds-if (SameSize buf) (c == dot) _ _
      (λ e. store_then (SameSize buf) buf (base + lock) (u8 (i - lock) ∷ []) _ (λ b same.
        Holds-map (SameSize b) (SameSize buf) _ (λ r s. s ∙ same)
          (encode_loop-SameSize base b (i + 1) (i + 1) host)))
      (λ e. store_then (SameSize buf) buf (base + i + 1) (c ∷ []) _ (λ b same.
        Holds-map (SameSize b) (SameSize buf) _ (λ r s. s ∙ same)
          (encode_loop-SameSize base b (i + 1) lock host)))

encode_domain_name-SameSize :
    (base : ℕ) (buf host : List ℕ) → Holds (SameSize buf) (encode_domain_name base buf host)
unfolding encode_domain_name
encode_domain_name-SameSize base buf host =
    Holds-bind (SameSize buf) (strlen (drop base buf)) _ (λ n e.
      store_then (SameSize buf) buf (base + n) (dot ∷ 0 ∷ []) _ (λ b same.
        Holds-map (SameSize b) (SameSize buf) _ (λ r s. s ∙ same)
          (encode_loop-SameSize base b 0 0 host)))

-- The query is made in place.
create_dns_query-SameSize :
    (o : ByteOrder) (garbage host : List ℕ)
    → Holds (λ (r : List ℕ × ℕ). SameSize garbage r.0) (create_dns_query o garbage host)
unfolding create_dns_query
create_dns_query-SameSize o garbage host =
    let P : List ℕ × ℕ → Type 0 = λ r. SameSize garbage r.0 in
    store_then P garbage 0 (header_bytes o (query_header o)) _ (λ b0 s0.
      Holds-then (SameSize b0) P (encode_domain_name sizeof_header b0 host) _
        (encode_domain_name-SameSize sizeof_header b0 host)
        (λ b1 s1. Holds-bind P (strlen (drop sizeof_header b1)) _ (λ n e.
          store_then P b1 (sizeof_header + (n + 1)) (bytes16 o (htons o 1)) _ (λ b2 s2.
            store_then P b2 (sizeof_header + (n + 1) + 2) (bytes16 o (htons o 1)) _
              (λ b3 s3. s3 ∙ s2 ∙ s1 ∙ s0)))))

-- With a socket and a buffer of 512 zeros, for a host of two labels or more, of which RFC 1035 allows
-- all but the last, with room for the query: `send_dns_query` asks for the host without its last
-- label. If an answer comes with one question, whose name holds no zero byte, and records whose
-- names are pointers of two bytes, and it fits the buffer, it prints the number of the records and
-- in order the addresses of those of type A.
pub send_dns_query-printed :
    (o : ByteOrder) (host l last : List ℕ) (ls : List (List ℕ)) (server : Server)
    (start counts qname question : List ℕ) (answers : List Answer)
    → labels host ≡ l ∷ ls ++ last ∷ []
    → Proper (l ∷ ls)
    → length host + 18 ≤ 512
    → is_neg server.socket ≡ false
    → server.recvfrom ≡ some (reply start counts qname question answers)
    → length (reply start counts qname question answers) ≤ 512
    → length start ≡ 6
    → length counts ≡ 4
    → NoNul qname
    → length question ≡ 4
    → length answers < 2 ^ 16
    → AreAnswers answers
    → send_dns_query o (replicate 512 0) server host
      ≡ some (printed (question_for o (l ∷ ls)) (length answers) (addresses answers))
unfolding send_dns_query
send_dns_query-printed o host l last ls server start counts qname question answers split proper room
      opened came fits s c nz q few are =
    let (buffer, query_length, made, asked) =
      create_dns_query_loses_last_label o 512 host l last ls split proper room in
    let answer = reply start counts qname question answers in
    let size : length buffer ≡ 512 =
      Holds-some (λ (r : List ℕ × ℕ). SameSize (replicate 512 0) r.0) _ (buffer, query_length) made
        (create_dns_query-SameSize o (replicate 512 0) host)
      ∙ length-replicate {A = ℕ} 512 0 in
    rw
      (
        opened,
        made,
        came,
        store-write buffer 0 answer (omega (arith, size, fits)),
        write_start answer buffer (omega (arith, size, fits)),
        parse_dns_response-reply o start counts qname question (drop (length answer) buffer) answers
            (length answer) s c nz q few are,
        asked,
      )
      refl
