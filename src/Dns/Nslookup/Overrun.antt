-- ===== src/Dns/Nslookup/Overrun.antt =====
-- How far `parse_dns_response` of nslookup.c reads.
use c_network_tools.Base.{
  ℕ, zero, suc, ◌+◌, ◌*◌, ◌≤◌, ◌<◌, ◌≡◌, refl, sym, List, ◌∷◌, Option, some, none, ◌>>=◌, ByteOrder,
  arith, length, load16, load, get_elem?, get_elem?-ge, ntohs, drop, strlen, Option-cases, >>=-none,
  Bool, true, false, ◌∙◌, inl, inr, ◌==◌, if◌then◌else◌,
}
use c_network_tools.Dns.Nslookup.{parse_answers, parse_dns_response, sizeof_header}

load16-none : (o : ByteOrder) (buf : List ℕ) (at : ℕ) → length buf ≤ at + 1 → load16 o buf at ≡ none
unfolding load16
load16-none o buf at h = rw (get_elem?-ge buf (at + 1) h) (>>=-none ℕ (get_elem? buf at))

module _ (o : ByteOrder) (buf : List ℕ) (left reader type class data_length : ℕ) where
  -- One round of the loop, once its three halfwords are read.
  pub parse_answers-suc :
      load16 o buf (reader + 2) ≡ some type
      → load16 o buf (reader + 2 + 2) ≡ some class
      → load16 o buf (reader + 2 + 8) ≡ some data_length
      → parse_answers o buf (suc left) reader ≡ (
          let rest = parse_answers o buf left (reader + 2 + 8 + 2 + ntohs o data_length) in
          if ntohs o type == 1
          then (load buf (reader + 2 + 8 + 2) 4 >>= λ ip. rest >>= λ ips. some (ip ∷ ips))
          else rest)
  unfolding parse_answers
  parse_answers-suc e1 e2 e3 = rw (e1, e2, e3, parse_answers)

  parse_answers-suc-none :
      load16 o buf (reader + 2) ≡ some type
      → load16 o buf (reader + 2 + 2) ≡ some class
      → load16 o buf (reader + 2 + 8) ≡ some data_length
      → parse_answers o buf left (reader + 2 + 8 + 2 + ntohs o data_length) ≡ none
      → parse_answers o buf (suc left) reader ≡ none
  parse_answers-suc-none e1 e2 e3 h =
      parse_answers-suc e1 e2 e3 ∙ rw h (both (ntohs o type == 1) (load buf (reader + 2 + 8 + 2) 4))
    where
      both :
          (b : Bool) (ip : Option (List ℕ))
          → (if b then ◌>>=◌ {B = List (List ℕ)} ip (λ i. none) else none) ≡ none
      both true ip = >>=-none (List (List ℕ)) ip
      both false ip = refl

-- An answer takes at least twelve bytes, so too many answers do not fit.
parse_answers_overrun :
    (o : ByteOrder) (buf : List ℕ) (left reader : ℕ)
    → length buf < reader + 12 * left
    → 0 < left
    → parse_answers o buf left reader ≡ none
parse_answers_overrun o buf zero reader h pos = absurd (omega arith)
parse_answers_overrun o buf (suc left) reader h pos =
    elim (Option-cases (load16 o buf (reader + 2))) [
      | inl e ↦ unfold parse_answers in rw (e, parse_answers)
      | inr (t, e) ↦ elim (Option-cases (load16 o buf (reader + 2 + 2))) [
        | inl e2 ↦ unfold parse_answers in rw (e, e2, parse_answers)
        | inr (c, e2) ↦ elim (Option-cases (load16 o buf (reader + 2 + 8))) [
          | inl e3 ↦ unfold parse_answers in rw (e, e2, e3, parse_answers)
          | inr (dl, e3) ↦
              parse_answers-suc-none o buf left reader t c dl e e2 e3
                (further left dl e3 h (parse_answers_overrun o buf left))
        ]
      ]
    ]
  where
    further :
        (n dl : ℕ)
        → load16 o buf (reader + 2 + 8) ≡ some dl
        → length buf < reader + 12 * suc n
        → ((at : ℕ) → length buf < at + 12 * n → 0 < n → parse_answers o buf n at ≡ none)
        → parse_answers o buf n (reader + 2 + 8 + 2 + ntohs o dl) ≡ none
    further zero dl e3 k ih =
        let outside : some dl ≡ none = sym e3 ∙ load16-none o buf (reader + 2 + 8) (omega arith) in
        cc
    further (suc n) dl e3 k ih = ih _ (omega arith) (omega arith)

-- With more answers announced than the buffer can hold, the loop reads outside the buffer,
-- whatever the buffer holds and however many bytes were received.
pub parse_dns_response_overrun :
    (o : ByteOrder) (buffer : List ℕ) (received an_count : ℕ)
    → load16 o buffer 6 ≡ some an_count
    → length buffer < 17 + 12 * ntohs o an_count
    → 0 < ntohs o an_count
    → parse_dns_response o buffer received ≡ none
unfolding parse_dns_response
parse_dns_response_overrun o buffer received an_count e h pos =
    elim (Option-cases (strlen (drop sizeof_header buffer))) [
      | inl none_found ↦ rw (e, none_found)
      | inr (n, found) ↦ rw (
        e,
        found,
        parse_answers_overrun o buffer (ntohs o an_count) (12 + n + 5) (omega arith) pos,
      )
    ]
