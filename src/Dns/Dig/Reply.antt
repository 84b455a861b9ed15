-- ===== src/Dns/Dig/Reply.antt =====
-- `parse_response` of dig.c and host.c on the reply of a name server.
use c_network_tools.Base.{
  ℕ, ◌+◌, ◌<◌, ◌≡◌, ◌≢◌, refl, ◌∙◌, ap, sym, false, List, ◌∷◌, ◌++◌, some, none, length, drop,
  arith, get_elem?, get_elem?-append, load16, strlen, strlen-append, NoNul, append_assoc,
  drop-append, length-append, ByteOrder, little, big, word16, htons, ◌==◌,
}
use c_network_tools.Dns.Dig.{parse_response}

-- A reply up to the type of its first answer, whose name is a pointer of two bytes, and the rest.
abbrev pub reply : List ℕ → List ℕ → List ℕ → ℕ → ℕ → List ℕ → List ℕ
reply header qname question pointer_high pointer_low rest =
    header ++ (qname ++ 0 ∷ (question ++ (pointer_high ∷ pointer_low ∷ rest)))

type_other :
    (o : ByteOrder) (a b : ℕ) → a < 256 → b < 256 → a ≢ 0 → (word16 o a b == htons o 1) ≡ false
type_other little a b ha hb h = ground arith
type_other big a b ha hb h = ground arith

-- The code looks for the type one byte too early: no address is printed for any reply to one
-- question whose first answer's name is a pointer, other than to an offset that 256 divides.
pub parse_response-reply :
    (o : ByteOrder) (header qname question : List ℕ) (pointer_high pointer_low type_high : ℕ)
    (rest : List ℕ)
    → length header ≡ 12
    → NoNul qname
    → length question ≡ 4
    → pointer_low < 256
    → pointer_low ≢ 0
    → type_high < 256
    → parse_response o (reply header qname question pointer_high pointer_low (type_high ∷ rest))
      ≡ some none
unfolding parse_response load16
parse_response-reply o header qname question ph pl th rest h nz q small other small' =
    rw
      (
        name_end,
        read (12 + length qname + 2 + 4) 1 (omega arith),
        read (12 + length qname + 2 + 4 + 1) 2 (omega arith),
        type_other o pl th small small' other,
      )
      refl
  where
    whole : List ℕ
    whole = reply header qname question ph pl (th ∷ rest)

    name_end : strlen (drop 12 whole) ≡ some (length qname)
    name_end =
        ap (λ n. strlen (drop n whole)) (sym h)
        ∙ ap strlen (drop-append header (qname ++ 0 ∷ (question ++ (ph ∷ pl ∷ th ∷ rest))))
        ∙ strlen-append qname (question ++ (ph ∷ pl ∷ th ∷ rest)) nz

    front : List ℕ
    front = header ++ (qname ++ 0 ∷ question)

    layout : whole ≡ front ++ (ph ∷ pl ∷ th ∷ rest)
    layout = simp append_assoc

    read :
        (at k : ℕ)
        → at ≡ 17 + length qname + k
        → get_elem? whole at ≡ get_elem? (ph ∷ pl ∷ th ∷ rest) k
    read at k e =
        ap (λ b. get_elem? b at) layout
        ∙ get_elem?-append front (ph ∷ pl ∷ th ∷ rest) at k (
            omega (
              arith,
              length-append header (qname ++ 0 ∷ question),
              length-append qname (0 ∷ question),
            ))
