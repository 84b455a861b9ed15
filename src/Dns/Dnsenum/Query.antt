-- ===== src/Dns/Dnsenum/Query.antt =====
-- The datagram that dnsenum.c sends.
use c_network_tools.Base.{
  ℕ, suc, ◌+◌, ◌≤◌, ◌<◌, ◌≡◌, refl, ◌∙◌, ap, ap₂, sym, false, List, [], ◌∷◌, ◌++◌, Option, some,
  none, length, take, drop, arith, append_assoc, length-append, length-drop, drop-drop, store,
  store-append, ByteOrder, little, big, bytes16, net16, htons, bytes16-htons, strlen, drop-append,
  take-append, is_neg, read_word-fits,
}
use c_network_tools.Dns.Name.{labels, label_bytes, wire, Proper, read_name}
use c_network_tools.Dns.Name.Laws.{length-label_bytes, strlen-wire, read_name-wire}
use c_network_tools.Dns.HexDump.{dump}
use c_network_tools.Dns.Dnsenum.{
  encode_domain_name, query_header, header_bytes, build_query, sizeof_header, send_dns_query,
  printed, Server, query_type_of, main,
}
use c_network_tools.Dns.Dnsenum.Laws.{encode_domain_name-wire}

abbrev pub header : ByteOrder → ℕ → List ℕ
header o pid = header_bytes o (query_header o pid)

length-header : (o : ByteOrder) (pid : ℕ) → length (header o pid) ≡ 12
unfolding query_header
length-header little pid = refl
length-header big pid = refl

-- The datagram that is meant: the header, the name, the type and the class `IN`.
abbrev pub datagram : ByteOrder → ℕ → List ℕ → ℕ → List ℕ
datagram o pid d query_type = header o pid ++ (wire (labels d) ++ (net16 query_type ++ net16 1))

length-wire : (d : List ℕ) → length (wire (labels d)) ≡ length d + 2
length-wire d = omega (arith, length-append (label_bytes (labels d)) (0 ∷ []), length-label_bytes d)

module _ (o : ByteOrder) (pid : ℕ) (garbage d : List ℕ) (query_type : ℕ) where
  build_query_steps :
      (b1 b2 b3 b4 : List ℕ) (n : ℕ)
      → store garbage 0 (header o pid) ≡ some b1
      → encode_domain_name b1 sizeof_header d ≡ some b2
      → strlen (drop sizeof_header b2) ≡ some n
      → store b2 (12 + n + 1) (bytes16 o (htons o query_type)) ≡ some b3
      → store b3 (12 + n + 1 + 2) (bytes16 o (htons o 1)) ≡ some b4
      → build_query o pid garbage d query_type ≡ some (b4, 12 + n + 1 + 2 + 2)
  unfolding build_query
  build_query_steps b1 b2 b3 b4 n h1 h2 h3 h4 h5 = rw (h1, h2, h3, h4, h5)

  abbrev H : List ℕ
  H = header o pid

  abbrev W : List ℕ
  W = wire (labels d)

  abbrev rest : ℕ → List ℕ
  rest n = drop n garbage

  -- The buffer after each write, where the datagram fits.
  module _ (fits : length d + 18 ≤ length garbage) where
    after_header : store garbage 0 H ≡ some (H ++ rest 12)
    after_header =
        store-append [] garbage 0 H refl (omega (arith, length-header o pid))
        ∙ ap (λ n. some (H ++ rest n)) (length-header o pid)

    after_name : encode_domain_name (H ++ rest 12) 12 d ≡ some (H ++ (W ++ rest (length d + 14)))
    after_name =
        let behind : 12 + (length d + 2) ≡ length d + 14 = omega arith in
        ap (λ n. encode_domain_name (H ++ rest 12) n d) (sym (length-header o pid))
        ∙ encode_domain_name-wire H (rest 12) d (omega (arith, length-drop 12 garbage))
        ∙ ap (λ t. some (H ++ (W ++ t))) (drop-drop (length d + 2) 12 garbage ∙ ap rest behind)

    name_length :
        Proper (labels d)
        → strlen (drop 12 (H ++ (W ++ rest (length d + 14)))) ≡ some (suc (length d))
    name_length h =
        ap (λ n. strlen (drop n (H ++ (W ++ rest (length d + 14))))) (sym (length-header o pid))
        ∙ ap strlen (drop-append H (W ++ rest (length d + 14)))
        ∙ strlen-wire (labels d) (rest (length d + 14)) h
        ∙ ap some (length-label_bytes d)

    after_type :
        store
          (H ++ (W ++ rest (length d + 14)))
          (12 + suc (length d) + 1)
          (bytes16 o (htons o query_type))
        ≡ some ((H ++ W) ++ (net16 query_type ++ rest (length d + 16)))
    after_type =
        let behind : length d + 14 + 2 ≡ length d + 16 = omega arith in
        ap₂ (λ b v. store b (12 + suc (length d) + 1) v)
          (sym (append_assoc H W (rest (length d + 14)))) (bytes16-htons o query_type)
        ∙ store-append (H ++ W) (rest (length d + 14)) (12 + suc (length d) + 1) (net16 query_type)
            (omega (arith, length-append H W, length-header o pid, length-wire d))
            (omega (arith, length-drop (length d + 14) garbage))
        ∙ ap (λ t. some ((H ++ W) ++ (net16 query_type ++ t)))
            (drop-drop 2 (length d + 14) garbage ∙ ap rest behind)

    after_class :
        store
          ((H ++ W) ++ (net16 query_type ++ rest (length d + 16)))
          (12 + suc (length d) + 1 + 2)
          (bytes16 o (htons o 1))
        ≡ some (datagram o pid d query_type ++ rest (length d + 18))
    after_class =
        let behind : length d + 16 + 2 ≡ length d + 18 = omega arith in
        ap₂ (λ b v. store b (12 + suc (length d) + 1 + 2) v)
          (sym (append_assoc (H ++ W) (net16 query_type) (rest (length d + 16))))
          (bytes16-htons o 1)
        ∙ store-append ((H ++ W) ++ net16 query_type) (rest (length d + 16))
            (12 + suc (length d) + 1 + 2) (net16 1)
            (omega (
              arith,
              length-append (H ++ W) (net16 query_type),
              length-append H W,
              length-header o pid,
              length-wire d,
            ))
            (omega (arith, length-drop (length d + 16) garbage))
        ∙ ap (λ t. some (((H ++ W) ++ net16 query_type) ++ (net16 1 ++ t)))
            (drop-drop 2 (length d + 16) garbage ∙ ap rest behind)
        ∙ ap some (simp append_assoc)

  length-datagram : length (datagram o pid d query_type) ≡ length d + 18
  length-datagram = omega (
    arith,
    length-append H (W ++ (net16 query_type ++ net16 1)),
    length-append W (net16 query_type ++ net16 1),
    length-header o pid,
    length-wire d,
  )

  -- With labels that RFC 1035 allows and room for the datagram, the buffer gets the datagram and
  -- keeps what it held behind it, and the size is the datagram's.
  pub build_query-datagram :
      Proper (labels d)
      → length d + 18 ≤ length garbage
      → build_query o pid garbage d query_type
        ≡ some (datagram o pid d query_type ++ drop (length d + 18) garbage, length d + 18)
  build_query-datagram h fits =
      build_query_steps _ _ _ _ (suc (length d)) (after_header fits) (after_name fits)
        (name_length fits h) (after_type fits) (after_class fits)
      ∙ ap (λ n. some (datagram o pid d query_type ++ rest (length d + 18), n)) (omega arith)

  -- Where the socket, the sending and the receiving succeed, the labels are allowed and the
  -- datagram fits the buffer, exactly that datagram is sent and the whole answer is printed.
  pub send_dns_query-printed :
      (server : Server) (reply : List ℕ)
      → Proper (labels d)
      → length d + 18 ≤ length garbage
      → is_neg server.socket ≡ false
      → is_neg server.sendto ≡ false
      → server.recvfrom ≡ some reply
      → send_dns_query o pid garbage server d query_type
        ≡ some (printed (datagram o pid d query_type) (dump 0 reply))
  unfolding send_dns_query
  send_dns_query-printed server reply h fits s t r =
      rw (build_query-datagram h fits, s, t, r)
        (ap (λ b. some (printed b (dump 0 reply)))
          (ap (λ n. take n (datagram o pid d query_type ++ rest (length d + 18)))
              (sym length-datagram)
            ∙ take-append (datagram o pid d query_type) (rest (length d + 18))))

  -- A run of the program, from the word and the choice that it reads: with a word of at most 255
  -- characters whose labels RFC 1035 allows, one of the choices, and a server that gets the query
  -- and answers, exactly the datagram for the type is sent, and the whole answer printed.
  pub main-printed :
      (server : Server) (reply : List ℕ) (choice : ℕ)
      → length garbage ≡ 512
      → length d < 256
      → query_type_of choice ≡ some query_type
      → Proper (labels d)
      → is_neg server.socket ≡ false
      → is_neg server.sendto ≡ false
      → server.recvfrom ≡ some reply
      → main o pid garbage server d choice
        ≡ some (some (printed (datagram o pid d query_type) (dump 0 reply)))
  unfolding main
  main-printed server reply choice size short chosen h s t r =
      rw
        (
          read_word-fits 256 d short,
          chosen,
          send_dns_query-printed server reply h (omega (arith, size, short)) s t r,
        )
        refl

  -- A name server that reads the datagram behind its header, more labels than the name has, finds
  -- the labels of the name, if RFC 1035 allows them and the datagram fits the buffer, and behind
  -- them the type and the class `IN`.
  pub build_query_understood :
      (buffer : List ℕ) (size fuel : ℕ)
      → Proper (labels d)
      → length d + 18 ≤ length garbage
      → build_query o pid garbage d query_type ≡ some (buffer, size)
      → length (labels d) < fuel
      → read_name fuel (drop sizeof_header (take size buffer))
        ≡ some (labels d, net16 query_type ++ net16 1)
  build_query_understood buffer size fuel h fits built enough =
      ap (λ r. read_name fuel (drop 12 (sent_of r))) (sym built ∙ build_query-datagram h fits)
      ∙ ap
          (λ n.
            read_name fuel (drop 12 (take n (datagram o pid d query_type ++ rest (length d + 18)))))
          (sym length-datagram)
      ∙ ap (λ b. read_name fuel (drop 12 b))
          (take-append (datagram o pid d query_type) (rest (length d + 18)))
      ∙ ap (λ n. read_name fuel (drop n (datagram o pid d query_type))) (sym (length-header o pid))
      ∙ ap (read_name fuel) (drop-append H (W ++ (net16 query_type ++ net16 1)))
      ∙ read_name-wire (labels d) (net16 query_type ++ net16 1) fuel h enough
    where
      sent_of : Option (List ℕ × ℕ) → List ℕ
      sent_of none = []
      sent_of (some (b, n)) = take n b
