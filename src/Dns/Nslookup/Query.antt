-- ===== src/Dns/Nslookup/Query.antt =====
-- The query that `create_dns_query` of nslookup.c builds in a buffer of zeros.
use c_network_tools.Base.{
  ℕ, suc, ◌+◌, ◌-◌, ◌≤◌, ◌≡◌, refl, ◌∙◌, ap, ap₂, sym, List, [], ◌∷◌, ◌++◌, some, length, take,
  drop, arith, append_assoc, length-append, length-drop, length-replicate, replicate, drop-drop,
  drop-replicate, store, store-append, ByteOrder, little, big, bytes16, net16, htons, bytes16-htons,
  strlen, drop-append, take-append,
}
use c_network_tools.Dns.Name.{labels, label_bytes, wire, Proper, dot}
use c_network_tools.Dns.Name.Laws.{
  strlen-wire, length-label_bytes, length-label_bytes_append, length-label_bytes_one,
}
use c_network_tools.Dns.Nslookup.{
  encode_domain_name, query_header, header_bytes, create_dns_query, sizeof_header,
}
use c_network_tools.Dns.Nslookup.Encode.{image, encode_domain_name-image, image_from-zeros}

abbrev pub header : ByteOrder → List ℕ
header o = header_bytes o (query_header o)

length-header : (o : ByteOrder) → length (header o) ≡ 12
unfolding query_header
length-header little = refl
length-header big = refl

module _ (o : ByteOrder) (garbage host : List ℕ) where
  create_dns_query_steps :
      (b1 b2 b3 b4 : List ℕ) (n : ℕ)
      → store garbage 0 (header o) ≡ some b1
      → encode_domain_name sizeof_header b1 host ≡ some b2
      → strlen (drop sizeof_header b2) ≡ some n
      → store b2 (12 + (n + 1)) (bytes16 o (htons o 1)) ≡ some b3
      → store b3 (12 + (n + 1) + 2) (bytes16 o (htons o 1)) ≡ some b4
      → create_dns_query o garbage host ≡ some (b4, 12 + (n + 1) + 4)
  unfolding create_dns_query
  create_dns_query_steps b1 b2 b3 b4 n h1 h2 h3 h4 h5 = rw (h1, h2, h3, h4, h5)

-- What the query asks for, if the labels are `ls`.
abbrev pub question_for : ByteOrder → List (List ℕ) → List ℕ
question_for o ls = header o ++ (wire ls ++ (net16 1 ++ net16 1))

-- The two writes behind a name that ends with a zero, with `t` behind it.
module _ (o : ByteOrder) (garbage host : List ℕ) (ls : List (List ℕ)) (t : List ℕ) where
  abbrev named : List ℕ
  named = header o ++ (label_bytes ls ++ 0 ∷ t)

  abbrev n : ℕ
  n = length (label_bytes ls)

  name_end : Proper ls → strlen (drop 12 named) ≡ some n
  name_end h =
      ap (λ k. strlen (drop k named)) (sym (length-header o))
      ∙ ap strlen (drop-append (header o) (label_bytes ls ++ 0 ∷ t))
      ∙ ap strlen (sym (append_assoc (label_bytes ls) (0 ∷ []) t))
      ∙ strlen-wire ls t h

  after_type :
      4 ≤ length t
      → store named (12 + (n + 1)) (bytes16 o (htons o 1))
        ≡ some ((header o ++ wire ls) ++ (net16 1 ++ drop 2 t))
  after_type h =
      ap₂ (λ b v. store b (12 + (n + 1)) v) layout (bytes16-htons o 1)
      ∙ store-append (header o ++ wire ls) t (12 + (n + 1)) (net16 1)
          (omega (
            arith,
            length-append (header o) (wire ls),
            length-append (label_bytes ls) (0 ∷ []),
            length-header o,
          ))
          (omega arith)
    where
      layout : named ≡ (header o ++ wire ls) ++ t
      layout = simp append_assoc

  after_class :
      4 ≤ length t
      → store
          ((header o ++ wire ls) ++ (net16 1 ++ drop 2 t))
          (12 + (n + 1) + 2)
          (bytes16 o (htons o 1))
        ≡ some (question_for o ls ++ drop 4 t)
  after_class h =
      ap₂ (λ b v. store b (12 + (n + 1) + 2) v)
        (sym (append_assoc (header o ++ wire ls) (net16 1) (drop 2 t))) (bytes16-htons o 1)
      ∙ store-append ((header o ++ wire ls) ++ net16 1) (drop 2 t) (12 + (n + 1) + 2) (net16 1)
          (omega (
            arith,
            length-append (header o ++ wire ls) (net16 1),
            length-append (header o) (wire ls),
            length-append (label_bytes ls) (0 ∷ []),
            length-header o,
          ))
          (omega (arith, length-drop 2 t))
      ∙ ap (λ r. some (((header o ++ wire ls) ++ net16 1) ++ (net16 1 ++ r))) (drop-drop 2 2 t)
      ∙ ap some (simp append_assoc)

  length-question : length (question_for o ls) ≡ 12 + (n + 1) + 4
  length-question = omega (
    arith,
    length-append (header o) (wire ls ++ (net16 1 ++ net16 1)),
    length-append (wire ls) (net16 1 ++ net16 1),
    length-append (label_bytes ls) (0 ∷ []),
    length-header o,
  )

-- In a buffer of zeros with room for it a host of two labels or more, of which RFC 1035 allows all
-- but the last, is asked for without its last label: the
-- query for `example.com` asks for `example`, and that of three labels for the first two.
pub create_dns_query_loses_last_label :
    (o : ByteOrder) (size : ℕ) (host l last : List ℕ) (ls : List (List ℕ))
    → labels host ≡ l ∷ ls ++ last ∷ []
    → Proper (l ∷ ls)
    → length host + 18 ≤ size
    → (buffer : List ℕ) × (query_length : ℕ) × (create_dns_query o (replicate size 0) host
        ≡ some (buffer, query_length))
      × (take query_length buffer ≡ question_for o (l ∷ ls))
create_dns_query_loses_last_label o size host l last ls split h fits =
    let (t, named_as, t_length) =
      image_from-zeros l ls last dot (suc (size - 14)) (omega (arith, host_length)) in
    let room : 4 ≤ length t = omega (arith, t_length, host_length) in
    (
      question_for o (l ∷ ls) ++ drop 4 t,
      12 + (n o zeros host (l ∷ ls) t + 1) + 4,
      create_dns_query_steps o zeros host _ _ _ _ _ after_header
          (after_name
            ∙ ap (λ ms. some (header o ++ image ms (dot ∷ 0 ∷ replicate (size - 14) 0))) split
            ∙ ap (λ b. some (header o ++ b)) named_as)
          (name_end o zeros host (l ∷ ls) t h) (after_type o zeros host (l ∷ ls) t room)
          (after_class o zeros host (l ∷ ls) t room),
      ap (λ k. take k (question_for o (l ∷ ls) ++ drop 4 t))
            (sym (length-question o zeros host (l ∷ ls) t))
          ∙ take-append (question_for o (l ∷ ls)) (drop 4 t),
    )
  where
    zeros : List ℕ
    zeros = replicate size 0

    host_length : length (label_bytes (l ∷ ls)) + suc (length last) ≡ suc (length host)
    host_length = omega (
      arith,
      length-label_bytes host,
      ap (λ ms. length (label_bytes ms)) split,
      length-label_bytes_append (l ∷ ls) (last ∷ []),
      length-label_bytes_one last,
    )

    after_header :
        store (replicate size 0) 0 (header o) ≡ some (header o ++ 0 ∷ 0 ∷ replicate (size - 14) 0)
    after_header =
        let e : size - 12 ≡ suc (suc (size - 14)) = omega arith in
        store-append [] (replicate size 0) 0 (header o) refl
          (omega (arith, length-header o, length-replicate {A = ℕ} size 0))
        ∙ ap (λ k. some (header o ++ drop k (replicate size 0))) (length-header o)
        ∙ ap (λ b. some (header o ++ b)) (drop-replicate 12 size 0 ∙ ap (λ k. replicate k 0) e)

    after_name :
        encode_domain_name 12 (header o ++ 0 ∷ 0 ∷ replicate (size - 14) 0) host
        ≡ some (header o ++ image (labels host) (dot ∷ 0 ∷ replicate (size - 14) 0))
    after_name =
        ap (λ k. encode_domain_name k (header o ++ 0 ∷ 0 ∷ replicate (size - 14) 0) host)
          (sym (length-header o))
        ∙ encode_domain_name-image (header o) [] (replicate (size - 14) 0) host 0 tt
            (omega (arith, length-replicate {A = ℕ} (size - 14) 0))
