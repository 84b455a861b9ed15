-- ===== src/Dns/Nslookup/Reply.antt =====
-- A reply as a name server writes it, and what `parse_dns_response` of nslookup.c prints of it.
use c_network_tools.Base.{
  ℕ, suc, ◌+◌, ◌^◌, ◌≤◌, ◌<◌, ◌≡◌, refl, sym, ◌∙◌, ap, ap₂, List, [], ◌∷◌, ◌++◌, some, ◌>>=◌,
  ByteOrder, arith, length, load16, load, load16_at, ntohs, drop, take, strlen, strlen-append, ◌==◌,
  if◌then◌else◌, net16, NoNul, true, false, append_assoc, length-append, drop-append, le→leb,
  Bool-cases, inl, inr, ==_iff, ◌⊎◌,
}
use c_network_tools.Dns.Nslookup.{parse_answers, parse_dns_response}
use c_network_tools.Dns.Nslookup.Overrun.{parse_answers-suc}

-- A resource record whose name is a pointer of two bytes.
pub record Answer : Type 0 where
  pub pointer_high : ℕ
  pub pointer_low : ℕ
  pub type : ℕ
  pub class : ℕ
  pub ttl_high : ℕ
  pub ttl_low : ℕ
  pub rdata : List ℕ

abbrev pub answer_bytes : Answer → List ℕ
answer_bytes a =
    a.pointer_high
    ∷ a.pointer_low
    ∷ (net16 a.type
        ++ (net16 a.class
            ++ (net16 a.ttl_high ++ (net16 a.ttl_low ++ (net16 (length a.rdata) ++ a.rdata)))))

abbrev pub answers_bytes : List Answer → List ℕ
answers_bytes [] = []
answers_bytes (a ∷ as') = answer_bytes a ++ answers_bytes as'

-- An address record holds four bytes at least.
abbrev pub IsAnswer : Answer → Type 0
IsAnswer a =
    (a.type < 2 ^ 16)
    × (a.class < 2 ^ 16)
    × (length a.rdata < 2 ^ 16)
    × (a.type ≡ 1 → 4 ≤ length a.rdata)

abbrev pub AreAnswers : List Answer → Type 0
AreAnswers [] = Unit
AreAnswers (a ∷ as') = IsAnswer a × AreAnswers as'

-- The addresses of the records of type A, in their order.
abbrev pub addresses : List Answer → List (List ℕ)
addresses [] = []
addresses (a ∷ as') = if a.type == 1 then take 4 a.rdata ∷ addresses as' else addresses as'

take-longer : (xs ys : List ℕ) → 4 ≤ length xs → take 4 (xs ++ ys) ≡ take 4 xs
take-longer (a ∷ b ∷ c ∷ d ∷ xs) ys h = refl
take-longer (a ∷ b ∷ c ∷ []) ys h = absurd (omega arith)
take-longer (a ∷ b ∷ []) ys h = absurd (omega arith)
take-longer (a ∷ []) ys h = absurd (omega arith)
take-longer [] ys h = absurd (omega arith)

module _ (o : ByteOrder) (p r : List ℕ) (a : Answer) (h : IsAnswer a) (left : ℕ) where
  abbrev buf : List ℕ
  buf = p ++ (answer_bytes a ++ r)

  abbrev name : List ℕ
  name = a.pointer_high ∷ a.pointer_low ∷ []

  abbrev before_length : List ℕ
  before_length = name ++ (net16 a.type ++ (net16 a.class ++ (net16 a.ttl_high ++ net16 a.ttl_low)))

  -- Where the three halfwords of an answer stand, and its address.
  type_read : (w : ℕ) × (load16 o buf (length p + 2) ≡ some w) × (ntohs o w ≡ a.type)
  type_read =
      load16_at o buf (p ++ name) _ (length p + 2) a.type (sym (append_assoc p name _))
        (sym (length-append p name)) h.0

  class_read : (w : ℕ) × (load16 o buf (length p + 2 + 2) ≡ some w) × (ntohs o w ≡ a.class)
  class_read =
      load16_at o buf (p ++ (name ++ net16 a.type)) _ (length p + 2 + 2) a.class
        (sym (append_assoc p (name ++ net16 a.type) _))
        (omega (arith, length-append p (name ++ net16 a.type))) h.1

  length_read : (w : ℕ) × (load16 o buf (length p + 2 + 8) ≡ some w) × (ntohs o w ≡ length a.rdata)
  length_read =
      load16_at o buf (p ++ before_length) (a.rdata ++ r) (length p + 2 + 8) (length a.rdata)
        (sym (append_assoc p before_length _)) (omega (arith, length-append p before_length)) h.2

  -- Behind the first twelve bytes of an answer stands its data.
  head : List ℕ
  head = before_length ++ net16 (length a.rdata)

  address_read : 4 ≤ length a.rdata → load buf (length p + 2 + 8 + 2) 4 ≡ some (take 4 a.rdata)
  unfolding load head
  address_read k =
      rw
        (le→leb (length p + 2 + 8 + 2 + 4) (length buf)
          (omega (arith, length-append p (answer_bytes a ++ r), length-append a.rdata r)))
        (ap some (
          ap₂ (λ n b. take 4 (drop n b)) (omega (arith, length-append p head))
            (sym (append_assoc p head (a.rdata ++ r)))
          ∙ ap (take 4) (drop-append (p ++ head) (a.rdata ++ r))
          ∙ take-longer a.rdata r k))

  parse_answers-answer :
      (ips : List (List ℕ))
      → parse_answers o buf left (length p + length (answer_bytes a)) ≡ some ips
      → parse_answers o buf (suc left) (length p)
        ≡ some (if a.type == 1 then take 4 a.rdata ∷ ips else ips)
  parse_answers-answer ips rest =
      let (t, t_read, t_value) = type_read in
      let (c, c_read, _) = class_read in
      let (n, n_read, n_value) = length_read in
      let behind : length p + 2 + 8 + 2 + length a.rdata ≡ length p + length (answer_bytes a) =
        omega arith in
      parse_answers-suc o buf left (length p) t c n t_read c_read n_read
      ∙ rw (t_value, n_value, behind, rest) (printed_if (Bool-cases (a.type == 1)))
    where
      printed_if :
          ((a.type == 1) ≡ true) ⊎ ((a.type == 1) ≡ false)
          → (if a.type == 1
              then (load buf (length p + 2 + 8 + 2) 4 >>= λ ip. some ips >>= λ is. some (ip ∷ is))
              else some ips)
            ≡ some (if a.type == 1 then take 4 a.rdata ∷ ips else ips)
      printed_if (inl e) = rw (e, address_read (h.3 ((==_iff a.type 1).0 e)))
      printed_if (inr e) = rw e

-- The loop over all answers of a reply.
parse_answers-addresses :
    (o : ByteOrder) (p r : List ℕ) (answers : List Answer)
    → AreAnswers answers
    → parse_answers o (p ++ (answers_bytes answers ++ r)) (length answers) (length p)
      ≡ some (addresses answers)
parse_answers-addresses o p r [] h = unfold parse_answers in refl
parse_answers-addresses o p r (a ∷ more) h =
    ap (λ b. parse_answers o b (suc (length more)) (length p)) layout
    ∙ parse_answers-answer o p (answers_bytes more ++ r) a h.0 (length more) (addresses more) (
        ap₂ (λ b n. parse_answers o b (length more) n)
          (sym (append_assoc p (answer_bytes a) (answers_bytes more ++ r)))
          (sym (length-append p (answer_bytes a)))
        ∙ parse_answers-addresses o (p ++ answer_bytes a) r more h.1)
  where
    layout :
        p ++ ((answer_bytes a ++ answers_bytes more) ++ r)
        ≡ p ++ (answer_bytes a ++ (answers_bytes more ++ r))
    layout = ap (λ t. p ++ t) (append_assoc (answer_bytes a) (answers_bytes more) r)

-- A reply: the first six bytes, the number of answers, four bytes more, the question and the
-- answers.
abbrev pub reply : List ℕ → List ℕ → List ℕ → List ℕ → List Answer → List ℕ
reply start counts qname question answers =
    (start ++ (net16 (length answers) ++ (counts ++ (qname ++ 0 ∷ question))))
    ++ answers_bytes answers

module _ (start counts qname question tail : List ℕ) (answers : List Answer) where
  abbrev whole : List ℕ
  whole = reply start counts qname question answers ++ tail

  abbrev front : List ℕ
  front = start ++ (net16 (length answers) ++ (counts ++ (qname ++ 0 ∷ question)))

  count_read :
      (o : ByteOrder)
      → length start ≡ 6
      → length answers < 2 ^ 16
      → (w : ℕ) × (load16 o whole 6 ≡ some w) × (ntohs o w ≡ length answers)
  count_read o s few =
      load16_at o whole start _ 6 (length answers)
        (append_assoc front (answers_bytes answers) tail ∙ append_assoc start _ _) (sym s) few

  abbrev header : List ℕ
  header = start ++ (net16 (length answers) ++ counts)

  length-header : length start ≡ 6 → length counts ≡ 4 → length header ≡ 12
  length-header s c = omega (arith, length-append start (net16 (length answers) ++ counts))

  name_end :
      length start ≡ 6
      → length counts ≡ 4
      → NoNul qname
      → strlen (drop 12 whole) ≡ some (length qname)
  name_end s c nz =
      ap₂ (λ n b. strlen (drop n b)) (sym (length-header s c)) layout
      ∙ ap strlen (drop-append header (qname ++ 0 ∷ (question ++ (answers_bytes answers ++ tail))))
      ∙ strlen-append qname (question ++ (answers_bytes answers ++ tail)) nz
    where
      layout : whole ≡ header ++ (qname ++ 0 ∷ (question ++ (answers_bytes answers ++ tail)))
      layout = simp append_assoc

  length-front :
      length start ≡ 6
      → length counts ≡ 4
      → length question ≡ 4
      → 12 + length qname + 5 ≡ length front
  length-front s c q = omega (
    arith,
    length-append start (net16 (length answers) ++ (counts ++ (qname ++ 0 ∷ question))),
    length-append counts (qname ++ 0 ∷ question),
    length-append qname (0 ∷ question),
  )

-- `parse_dns_response` prints the number of answers and the addresses of all the records of type A,
-- in order, of any reply with one question, fewer than 2 ^ 16 answers, names that are pointers of
-- two bytes, and address records of four bytes or more, whatever the buffer holds behind it.
pub parse_dns_response-reply :
    (o : ByteOrder) (start counts qname question tail : List ℕ) (answers : List Answer)
    (received : ℕ)
    → length start ≡ 6
    → length counts ≡ 4
    → NoNul qname
    → length question ≡ 4
    → length answers < 2 ^ 16
    → AreAnswers answers
    → parse_dns_response o (reply start counts qname question answers ++ tail) received
      ≡ some (length answers, addresses answers)
unfolding parse_dns_response
parse_dns_response-reply o start counts qname question tail answers received s c nz q few h =
    let (w, w_read, w_value) = count_read start counts qname question tail answers o s few in
    rw
      (
        w_read,
        name_end start counts qname question tail answers s c nz,
        w_value,
        length-front start counts qname question tail answers s c q,
        answers_read,
      )
      refl
  where
    answers_read :
        parse_answers o
          (whole start counts qname question tail answers)
          (length answers)
          (length (front start counts qname question tail answers))
        ≡ some (addresses answers)
    answers_read =
        ap
          (λ b.
            parse_answers o b (length answers)
              (length (front start counts qname question tail answers)))
          (append_assoc (front start counts qname question tail answers) (answers_bytes answers)
            tail)
        ∙ parse_answers-addresses o (front start counts qname question tail answers) tail answers h
