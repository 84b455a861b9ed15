-- ===== src/Client.antt =====
-- Server-Client Relationship/SocketClient.c. Text is a list of characters, 10 the newline.
pub mod Lines
pub mod Session
pub mod Delivery
pub mod Laws
use c_network_tools.Base.{
  ℕ, zero, suc, ◌+◌, ◌-◌, Bool, true, false, List, [], ◌∷◌, ◌++◌, Option, some, none, ◌>>=◌, ◌==◌,
  ◌&&◌, ◌||◌, if◌then◌else◌, length, take, store, c_string, ℤ, is_neg, is_positive, is_zero, not,
}

-- `receiveMessages`: how it ends, which ends the program with status 0, or that it waits.
pub data End : Type 0 where
  disconnected recv_failed waiting : End

-- The answers of `recv`, `none` for a negative one; the messages that are printed, and the end.
unfoldable pub receive_messages : List (Option (List ℕ)) → List (List ℕ) × End
receive_messages [] = ([], waiting)
receive_messages (none ∷ answers) = ([], recv_failed)
receive_messages (some [] ∷ answers) = ([], disconnected)
receive_messages (some (b ∷ bs) ∷ answers) =
    let (messages, end) = receive_messages answers in (c_string (b ∷ bs) ∷ messages, end)

-- At most `n` characters up to a newline, which is read too, and the rest of the input.
unfoldable pub get_line : ℕ → List ℕ → List ℕ × List ℕ
get_line zero input = ([], input)
get_line (suc n) [] = ([], [])
get_line (suc n) (c ∷ input) =
    let (line, rest) = get_line n input in if c == 10 then (c ∷ [], input) else (c ∷ line, rest)

-- `strcspn(s, "\n")`; `none` is a read past the buffer.
unfoldable pub strcspn : List ℕ → Option ℕ
strcspn [] = none
strcspn (c ∷ cs) =
    let rest = strcspn cs in
    if c == 0 || c == 10 then some 0 else (elim rest [ none ↦ none | some n ↦ some (suc n) ])

-- A line with a zero behind it in the buffer, which stays as it was at the end of the input.
unfoldable pub put_line : List ℕ → List ℕ → Option (List ℕ)
put_line buffer [] = some buffer
put_line buffer (c ∷ cs) = store buffer 0 (c ∷ cs ++ 0 ∷ [])

-- `fgets` into a buffer that held `garbage`, and the rest of the input.
unfoldable pub fgets : List ℕ → List ℕ → Option (List ℕ × List ℕ)
unfolding get_line put_line
fgets garbage input = do
  let (line, rest) = get_line (length garbage - 1) input
  buffer ← put_line garbage line
  some (buffer, rest)

-- What `send` is given: the text in front of the newline or the zero.
unfoldable pub cut : List ℕ → List ℕ
cut [] = []
cut (c ∷ cs) = let rest = cut cs in if c == 0 || c == 10 then [] else c ∷ rest

-- `strcmp(a, b) == 0`
abbrev pub str_eq : List ℕ → List ℕ → Bool
str_eq [] [] = true
str_eq [] (d ∷ ds) = false
str_eq (c ∷ cs) [] = false
str_eq (c ∷ cs) (d ∷ ds) = c == d && str_eq cs ds

abbrev pub exit : List ℕ
exit = b'e' ∷ b'x' ∷ b'i' ∷ b't' ∷ []

-- What a round of the loop does with a line, where `more` is what the rounds behind it send.
unfoldable pub send_line : ℤ → List ℕ → Option (List (List ℕ)) → Option (List (List ℕ))
unfolding cut
send_line answer [] more = some []
send_line answer (c ∷ cs) more =
    let text = cut (c ∷ cs) in
    if str_eq text exit
    then some []
    else if is_neg answer
    then some (text ∷ [])
    else (do texts ← more; some (text ∷ texts))

-- The loop over the lines, with what `send` answers in each round: the texts that are given to it.
-- Each round reads a character at least, so fuel above the length of the input is enough.
unfoldable pub talk : ℕ → (ℕ → ℤ) → ℕ → List ℕ → Option (List (List ℕ))
unfolding get_line send_line
talk zero answers k input = none
talk (suc fuel) answers k input =
    let (line, rest) = get_line (length input) input in
    send_line (answers k) line (talk fuel answers (k + 1) rest)

-- The answers of the calls, and the standard input.
pub record World : Type 0 where
  pub socket : ℤ
  pub inet_pton : ℤ
  pub connect : ℤ
  pub pthread_create : ℤ
  pub send : ℕ → ℤ
  pub input : List ℕ

-- `main`, as far as the other thread lets it run: the first four end with status 1.
pub data Outcome : Type 0 where
  socket_failed invalid_address connection_failed : Outcome
  thread_failed : List ℕ → Outcome
  left : List ℕ → List (List ℕ) → Outcome

-- What is given to `send`: the nickname, then the texts. `garbage` is what `nickname` held.
unfoldable pub main : List ℕ → World → Option Outcome
unfolding fgets strcspn talk
main garbage w =
    if is_neg w.socket
    then some socket_failed
    else if not (is_positive w.inet_pton)
    then some invalid_address
    else if is_neg w.connect
    then some connection_failed
    else (do
      (buffer, rest) ← fgets garbage w.input
      n ← strcspn buffer
      let nickname = take n buffer
      if not (is_zero w.pthread_create)
          then some (thread_failed nickname)
          else (do texts ← talk (suc (length rest)) w.send 0 rest; some (left nickname texts)))
