-- ===== src/Dns/Axfr/Laws.antt =====
-- What axfr.c asks for and what it receives.
use c_network_tools.Base.{
  ℕ, suc, ◌+◌, ◌-◌, ◌≤◌, ◌<◌, ◌≡◌, refl, sym, ◌∙◌, ap, List, [], ◌∷◌, ◌++◌, Option, some, ByteOrder,
  little, big, map, net16, bytes16-htons, length, take, drop, store, store-append, replicate,
  length-replicate, length-append, length-drop, drop-replicate, drop-append_le, take-append,
  append_assoc, arith, drop-drop,
}
use c_network_tools.Dns.HexDump.{dump}
use c_network_tools.Dns.Axfr.{
  query_header, header_bytes, axfr_query, receive, finished, waiting, buffer_size,
}

abbrev pub header : ByteOrder → List ℕ
header o = header_bytes o (query_header o)

length-header : (o : ByteOrder) → length (header o) ≡ 12
unfolding query_header
length-header little = refl
length-header big = refl

-- Messages that fill the buffer.
abbrev pub AreFull : List (List ℕ) → Type 0
AreFull [] = Unit
AreFull (m ∷ ms) = (length m ≡ buffer_size) × AreFull ms

abbrev pub shown : List ℕ → ℕ × List ℕ
shown m = (length m, dump 0 m)

-- Full messages are printed and the first short one ends the transfer: it is printed too, and
-- what comes behind it is not read. After full messages only, the program waits for more.
pub receive-AreFull :
    (full : List (List ℕ)) (short : List ℕ) (behind : List (Option (List ℕ)))
    → AreFull full
    → length short < buffer_size
    → (receive (map some full ++ some short ∷ behind)
        ≡ (map shown full ++ shown short ∷ [], finished))
      × (receive (map some full) ≡ (map shown full, waiting))
unfolding receive
receive-AreFull [] short behind h lt = (ground arith, refl)
receive-AreFull (m ∷ full) short behind h lt =
    let (ends, waits) = receive-AreFull full short behind h.1 lt in
    (ground (arith, ends, h.0), ground (arith, waits, h.0))

module _ (o : ByteOrder) (domain : List ℕ) where
  -- The datagram: the type and the class lie over the first four bytes of the name.
  abbrev pub overwritten : List ℕ
  overwritten = header o ++ (net16 252 ++ (net16 1 ++ (drop 4 (domain ++ 0 ∷ []) ++ replicate 4 0)))

  axfr_query_steps :
      (b1 b2 b3 b4 : List ℕ)
      → store (replicate 512 0) 0 (header o) ≡ some b1
      → store b1 12 (domain ++ 0 ∷ []) ≡ some b2
      → store b2 12 (net16 252) ≡ some b3
      → store b3 14 (net16 1) ≡ some b4
      → axfr_query o domain ≡ some (take (12 + length domain + 1 + 4) b4)
  unfolding axfr_query
  axfr_query_steps b1 b2 b3 b4 h1 h2 h3 h4 = rw (h1, h2, bytes16-htons, bytes16-htons, h3, h4)

  -- What stands behind the header after the name is copied.
  abbrev D : List ℕ
  D = domain ++ 0 ∷ []

  abbrev zeros : ℕ → List ℕ
  zeros n = replicate n 0

  after_copy :
      length domain + 1 ≤ 500
      → store (header o ++ zeros 500) 12 D ≡ some (header o ++ (D ++ zeros (499 - length domain)))
  after_copy fits =
      let e : 500 - length D ≡ 499 - length domain = omega (arith, length-append domain (0 ∷ [])) in
      store-append (header o) (zeros 500) 12 D (sym (length-header o))
        (omega (arith, length-append domain (0 ∷ [])))
      ∙ ap (λ r. some (header o ++ (D ++ r))) (drop-replicate {A = ℕ} (length D) 500 0 ∙ ap zeros e)

  -- A domain of three characters at least, which fits the buffer, is sent without its first four
  -- bytes: the type and the class stand in their place.
  pub axfr_query-overwritten :
      3 ≤ length domain → length domain + 17 ≤ buffer_size → axfr_query o domain ≡ some overwritten
  axfr_query-overwritten long fits =
      axfr_query_steps (header o ++ zeros 500) _ _ _ after_header (after_copy (omega arith))
        (store-append (header o) (D ++ zeros z) 12 (net16 252) (sym (length-header o))
          (omega (arith, whole)))
        (ap (λ b. store b 14 (net16 1))
            (sym (append_assoc (header o) (net16 252) (drop 2 (D ++ zeros z))))
          ∙ store-append (header o ++ net16 252) (drop 2 (D ++ zeros z)) 14 (net16 1)
              (omega (arith, length-append (header o) (net16 252), length-header o))
              (omega (arith, length-drop 2 (D ++ zeros z), whole))
          ∙ ap some tail)
      ∙ ap some cut
    where
      z : ℕ
      z = 499 - length domain

      size_D : length D ≡ length domain + 1
      size_D = length-append domain (0 ∷ [])

      whole : length (D ++ zeros z) ≡ 500
      whole = omega (arith, length-append D (zeros z), size_D, length-replicate {A = ℕ} z 0)

      after_header : store (zeros 512) 0 (header o) ≡ some (header o ++ zeros 500)
      after_header =
          store-append [] (zeros 512) 0 (header o) refl (omega (arith, length-header o))
          ∙ ap (λ n. some (header o ++ drop n (zeros 512))) (length-header o)

      regroup :
          (name rest : List ℕ)
          → (header o ++ net16 252) ++ (net16 1 ++ (name ++ (replicate 4 0 ++ rest)))
            ≡ (header o ++ (net16 252 ++ (net16 1 ++ (name ++ replicate 4 0)))) ++ rest
      regroup name rest = simp append_assoc

      tail :
          (header o ++ net16 252) ++ (net16 1 ++ drop 2 (drop 2 (D ++ zeros z)))
          ≡ overwritten ++ zeros (z - 4)
      tail =
          let four : z ≡ suc (suc (suc (suc (z - 4)))) = omega arith in
          ap (λ r. (header o ++ net16 252) ++ (net16 1 ++ r))
            (drop-drop 2 2 (D ++ zeros z)
              ∙ drop-append_le 4 D (zeros z) (omega (arith, size_D))
              ∙ ap (λ n. drop 4 D ++ zeros n) four)
          ∙ regroup (drop 4 D) (zeros (z - 4))

      cut : take (12 + length domain + 1 + 4) (overwritten ++ zeros (z - 4)) ≡ overwritten
      cut =
          ap (λ n. take n (overwritten ++ zeros (z - 4)))
            (omega (
              arith,
              length-append (header o) (net16 252 ++ (net16 1 ++ (drop 4 D ++ replicate 4 0))),
              length-header o,
              length-append (drop 4 D) (replicate 4 0),
              length-drop 4 D,
              size_D,
            ))
          ∙ take-append overwritten (zeros (z - 4))
