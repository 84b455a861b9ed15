-- ===== src/Client/Laws.antt =====
-- What SocketClient.c sends.
use c_network_tools.Base.{
  ℕ, zero, suc, ◌+◌, ◌<◌, ◌≤◌, ◌≡◌, refl, ap, ◌∙◌, sym, true, false, Bool-cases, inl, inr, List, [],
  ◌∷◌, ◌++◌, Option, some, arith, length, take, drop, if◌then◌else◌, length-append, ◌>>=◌,
  append_assoc, store-append, ltb, ℤ, is_neg, is_positive, is_zero, take_le, take-append,
  length-take,
}
use c_network_tools.Client.{
  send_line, put_line, get_line, strcspn, fgets, talk, str_eq, exit, main, World, left,
}
use c_network_tools.Client.Lines.{
  IsText, lines, get_line-text, cut-text, get_line-long, IsText-take, IsText-drop, strcspn-text,
  strcspn-zero,
}

abbrev pub AreTexts : List (List ℕ) → Type 0
AreTexts [] = Unit
AreTexts (t ∷ ts) = IsText t × AreTexts ts

-- The texts in front of the first `exit`.
abbrev pub until_exit : List (List ℕ) → List (List ℕ)
until_exit [] = []
until_exit (t ∷ ts) = let rest = until_exit ts in if str_eq t exit then [] else t ∷ rest

send_line-text :
    (answer : ℤ) (t : List ℕ) (more : Option (List (List ℕ)))
    → IsText t
    → is_neg answer ≡ false
    → send_line answer (t ++ 10 ∷ []) more
      ≡ (if str_eq t exit then some [] else (more >>= λ texts. some (t ∷ texts)))
unfolding send_line
send_line-text answer [] more h ok = rw (ok, cut-text [] [] h) refl
send_line-text answer (c ∷ t) more h ok = rw (ok, cut-text (c ∷ t) [] h) refl

-- The loop sends the lines in front of `exit`, each without its newline.
pub talk-lines :
    (fuel : ℕ) (answers : ℕ → ℤ) (k : ℕ) (texts : List (List ℕ))
    → AreTexts texts
    → length (lines texts) < fuel
    → ((i : ℕ) → is_neg (answers i) ≡ false)
    → talk fuel answers k (lines texts) ≡ some (until_exit texts)
unfolding talk
talk-lines zero answers k texts h lt ok = absurd (omega arith)
talk-lines (suc fuel) answers k [] h lt ok = unfold get_line in unfold send_line in refl
talk-lines (suc fuel) answers k (t ∷ ts) h lt ok =
    let size = length-append t (10 ∷ lines ts) in
    let ih = talk-lines fuel answers (k + 1) ts h.1 (omega (arith, size)) ok in
    let line = get_line-text (length (t ++ 10 ∷ lines ts)) t (lines ts) h.0 (omega (arith, size)) in
    ap (λ (r : List ℕ × List ℕ). send_line (answers k) r.0 (talk fuel answers (k + 1) r.1)) line
    ∙ send_line-text (answers k) t (talk fuel answers (k + 1) (lines ts)) h.0 (ok k)
    ∙ rw ih (elim (Bool-cases (str_eq t exit)) [ inl e ↦ rw e refl | inr e ↦ rw e refl ])

put_line-store :
    (garbage line : List ℕ)
    → 0 < length line
    → length line + 1 ≤ length garbage
    → put_line garbage line ≡ some (line ++ 0 ∷ drop (length line + 1) garbage)
unfolding put_line
put_line-store garbage [] pos fits = absurd (omega arith)
put_line-store garbage (c ∷ cs) pos fits =
    store-append [] garbage 0 (c ∷ cs ++ 0 ∷ []) refl (omega (arith, size))
    ∙ ap some (append_assoc (c ∷ cs) (0 ∷ []) _ ∙ ap (λ n. c ∷ cs ++ 0 ∷ drop n garbage) size)
  where
    size : length (c ∷ cs ++ 0 ∷ []) ≡ length (c ∷ cs) + 1
    size = length-append (c ∷ cs) (0 ∷ [])

-- The nickname that is read, and the input behind it: a name of 49 characters or more is cut, and
-- the rest of it stays in the input.
pub record Nickname (garbage name rest : List ℕ) : Type 0 where
  pub buffer : List ℕ
  pub size : ℕ
  pub reads :
      fgets garbage (name ++ 10 ∷ rest)
      ≡ some (buffer, if ltb (length name) 49 then rest else drop 49 name ++ 10 ∷ rest)
  pub ends : strcspn buffer ≡ some size
  pub text : take size buffer ≡ take 49 name

fgets-Nickname :
    (garbage name rest : List ℕ) → length garbage ≡ 50 → IsText name → Nickname garbage name rest
unfolding fgets
fgets-Nickname garbage name rest g h = elim (Bool-cases (ltb (length name) 49)) [
  | inl short ↦
      let lt : length name < 49 = ground arith in
      let line = get_line-text 49 name rest h lt in
      let size = length-append name (10 ∷ []) in
      record {
        buffer = (name ++ 10 ∷ []) ++ 0 ∷ drop (length (name ++ 10 ∷ []) + 1) garbage;
        size = length name;
        reads =
            rw
              (
                g,
                short,
                line,
                put_line-store garbage (name ++ 10 ∷ []) (omega (arith, size))
                    (omega (arith, size, g)),
              )
              refl;
        ends = ap strcspn (append_assoc name (10 ∷ []) _) ∙ strcspn-text name _ h;
        text =
            ap (take (length name)) (append_assoc name (10 ∷ []) _)
            ∙ take-append name _
            ∙ sym (take_le 49 name (omega arith));
      }
  | inr long ↦
      let le : 49 ≤ length name = ground arith in
      let line = get_line-long 49 name (10 ∷ rest) h le in
      let size : length (take 49 name) ≡ 49 = omega (arith, length-take 49 name) in
      record {
        buffer = take 49 name ++ 0 ∷ drop (length (take 49 name) + 1) garbage;
        size = length (take 49 name);
        reads =
            rw
              (
                g,
                long,
                line,
                put_line-store garbage (take 49 name) (omega (arith, size))
                    (omega (arith, size, g)),
              )
              refl;
        ends = strcspn-zero (take 49 name) _ (IsText-take 49 name h);
        text = take-append (take 49 name) _;
      }
]

-- The lines that the loop gets to read.
abbrev pub typed : List ℕ → List (List ℕ) → List (List ℕ)
typed name texts = if ltb (length name) 49 then texts else drop 49 name ∷ texts

-- A program that gets its connection and its thread, and whose messages are sent; its input is a
-- name and texts, each on a line.
pub record Works (garbage : List ℕ) (w : World) (name : List ℕ) (texts : List (List ℕ))
    : Type 0 where
  pub buffer : length garbage ≡ 50
  pub made : is_neg w.socket ≡ false
  pub valid : is_positive w.inet_pton ≡ true
  pub connected : is_neg w.connect ≡ false
  pub threaded : is_zero w.pthread_create ≡ true
  pub sending : (i : ℕ) → is_neg (w.send i) ≡ false
  pub named : IsText name
  pub said : AreTexts texts
  pub input : w.input ≡ lines (name ∷ texts)

AreTexts-typed :
    (name : List ℕ) (texts : List (List ℕ))
    → IsText name
    → AreTexts texts
    → AreTexts (typed name texts)
AreTexts-typed name texts h hs = elim (Bool-cases (ltb (length name) 49)) [
  | inl short ↦ rw short hs
  | inr long ↦ rw long (IsText-drop 49 name h, hs)
]

-- With a connection, a thread that can be made, sends that succeed, and an input of a name and
-- further lines, all without zero bytes, `main` ends. It sends the first 49 characters of the name,
-- and then the lines in front of the first `exit`, each without its newline. What is left of a name
-- of 49 characters or more is the first of them.
pub main-left :
    (garbage : List ℕ) (w : World) (name : List ℕ) (texts : List (List ℕ))
    → Works garbage w name texts
    → main garbage w ≡ some (left (take 49 name) (until_exit (typed name texts)))
unfolding main
main-left garbage w name texts p =
    let n = fgets-Nickname garbage name (lines texts) p.buffer p.named in
    rw (p.made, p.valid, p.connected, p.input, n.reads, n.ends, n.text, p.threaded, unread)
      (ap (λ (o : Option (List (List ℕ))). o >>= λ ts. some (left (take 49 name) ts))
        (talk-lines (suc (length (lines (typed name texts)))) w.send 0 (typed name texts)
          (AreTexts-typed name texts p.named p.said) (omega arith) p.sending))
  where
    unread :
        (if ltb (length name) 49 then lines texts else drop 49 name ++ 10 ∷ lines texts)
        ≡ lines (typed name texts)
    unread = elim (Bool-cases (ltb (length name) 49)) [ inl e ↦ rw e refl | inr e ↦ rw e refl ]
