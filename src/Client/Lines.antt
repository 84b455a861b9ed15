-- ===== src/Client/Lines.antt =====
-- The lines of the standard input, and how SocketClient.c reads them.
use c_network_tools.Base.{
  ℕ, zero, suc, ◌<◌, ◌≤◌, ◌≡◌, ◌≢◌, refl, List, [], ◌∷◌, ◌++◌, some, arith, length, take, drop,
}
use c_network_tools.Client.{get_line, strcspn, cut}

-- A text that fits on a line.
abbrev pub IsText : List ℕ → Type 0
IsText [] = Unit
IsText (c ∷ cs) = (c ≢ 0) × (c ≢ 10) × IsText cs

-- Each text with the newline behind it.
abbrev pub lines : List (List ℕ) → List ℕ
lines [] = []
lines (t ∷ ts) = t ++ (10 ∷ lines ts)

pub get_line-text :
    (n : ℕ) (t rest : List ℕ)
    → IsText t
    → length t < n
    → get_line n (t ++ 10 ∷ rest) ≡ (t ++ 10 ∷ [], rest)
unfolding get_line
get_line-text zero t rest h lt = absurd (omega arith)
get_line-text (suc n) [] rest h lt = refl
get_line-text (suc n) (c ∷ t) rest h lt =
    ground (arith, h.1, get_line-text n t rest h.2 (omega arith))

pub cut-text : (t rest : List ℕ) → IsText t → cut (t ++ 10 ∷ rest) ≡ t
unfolding cut
cut-text [] rest h = refl
cut-text (c ∷ t) rest h = ground (arith, h.0, h.1, cut-text t rest h.2)

pub strcspn-text : (t rest : List ℕ) → IsText t → strcspn (t ++ 10 ∷ rest) ≡ some (length t)
unfolding strcspn
strcspn-text [] rest h = refl
strcspn-text (c ∷ t) rest h = ground (arith, h.0, h.1, strcspn-text t rest h.2)

-- The limit cuts a longer text.
pub get_line-long :
    (n : ℕ) (t rest : List ℕ)
    → IsText t
    → n ≤ length t
    → get_line n (t ++ rest) ≡ (take n t, drop n t ++ rest)
unfolding get_line
get_line-long zero t rest h le = refl
get_line-long (suc n) [] rest h le = absurd (omega arith)
get_line-long (suc n) (c ∷ t) rest h le =
    ground (arith, h.1, get_line-long n t rest h.2 (omega arith))

pub IsText-take : (n : ℕ) (t : List ℕ) → IsText t → IsText (take n t)
IsText-take zero t h = tt
IsText-take (suc n) [] h = tt
IsText-take (suc n) (c ∷ t) h = (h.0, h.1, IsText-take n t h.2)

pub IsText-drop : (n : ℕ) (t : List ℕ) → IsText t → IsText (drop n t)
IsText-drop zero t h = h
IsText-drop (suc n) [] h = tt
IsText-drop (suc n) (c ∷ t) h = IsText-drop n t h.2

-- A string of these characters with a zero behind it.
pub strcspn-zero : (t rest : List ℕ) → IsText t → strcspn (t ++ 0 ∷ rest) ≡ some (length t)
unfolding strcspn
strcspn-zero [] rest h = refl
strcspn-zero (c ∷ t) rest h = ground (arith, h.0, h.1, strcspn-zero t rest h.2)
