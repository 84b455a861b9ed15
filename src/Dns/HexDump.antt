-- ===== src/Dns/HexDump.antt =====
-- The loops that print a packet, in `send_dns_query` of Fingerprinting/Dnsenum/dnsenum.c and in
-- `receiveAXFRResponse` of Fingerprinting/AXFR(DNS Zone Transfer)/axfr.c.
use c_network_tools.Base.{
  ℕ, ◌+◌, ◌-◌, ◌*◌, ◌/◌, ◌%◌, ◌<◌, ◌≡◌, refl, List, [], ◌∷◌, ◌++◌, arith, ltb, ◌==◌, if◌then◌else◌,
  Bytes, false,
}

-- A digit of "%02x", and `printf("%02x ", b)`.
abbrev hex_digit : ℕ → ℕ
hex_digit d = if ltb d 10 then b'0' + d else b'a' + d - 10

print_byte : ℕ → List ℕ
print_byte b = hex_digit (b / 16) ∷ hex_digit (b % 16) ∷ b' ' ∷ []

abbrev pub newline : ℕ
newline = 10

-- The loop at index `i`, a line feed after every sixteenth byte, and the line feed behind it.
unfoldable pub dump : ℕ → List ℕ → List ℕ
unfolding print_byte
dump i [] = newline ∷ []
dump i (b ∷ bs) =
    let rest = dump (i + 1) bs in
    print_byte b ++ (if (i + 1) % 16 == 0 then newline ∷ rest else rest)

-- A reader of such a dump: two digits and a blank for a byte, line feeds skipped.
abbrev digit_value : ℕ → ℕ
digit_value c = if ltb c b'a' then c - b'0' else c + 10 - b'a'

unfoldable pub undump : List ℕ → List ℕ
undump [] = []
undump (c ∷ []) = []
undump (c ∷ d ∷ []) = []
undump (c ∷ d ∷ e ∷ cs) =
    let on_line = undump (d ∷ e ∷ cs) in
    let further = undump cs in
    if c == newline then on_line else (digit_value c * 16 + digit_value d) ∷ further

digit_value-hex_digit :
    (d : ℕ) → d < 16 → (digit_value (hex_digit d) ≡ d) × ((hex_digit d == newline) ≡ false)
digit_value-hex_digit d h = ground arith

undump-newline : (cs : List ℕ) → undump (newline ∷ cs) ≡ undump cs
unfolding undump
undump-newline [] = refl
undump-newline (c ∷ []) = refl
undump-newline (c ∷ d ∷ cs) = refl

undump-byte : (b : ℕ) (cs : List ℕ) → b < 256 → undump (print_byte b ++ cs) ≡ b ∷ undump cs
unfolding undump print_byte
undump-byte b cs h = ground (
  arith,
  digit_value-hex_digit (b / 16) (omega arith),
  digit_value-hex_digit (b % 16) (omega arith),
)

-- A dump shows every byte: a packet of bytes can be read back from the text.
pub undump-dump : (i : ℕ) (bs : List ℕ) → Bytes bs → undump (dump i bs) ≡ bs
unfolding dump
undump-dump i [] h = unfold undump in refl
undump-dump i (b ∷ bs) h = ground (
  arith,
  undump-byte b (dump (i + 1) bs) h.0,
  undump-byte b (newline ∷ dump (i + 1) bs) h.0,
  undump-newline (dump (i + 1) bs),
  undump-dump (i + 1) bs h.1,
)
