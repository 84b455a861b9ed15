-- ===== src/Whois.antt =====
-- Fingerprinting/Whois/whois.c
pub mod Laws
use c_network_tools.Base.{
  ℕ, ◌-◌, List, [], ◌∷◌, ◌++◌, Option, some, none, take, ℤ, is_neg, is_zero, if◌then◌else◌,
  c_string, Bool, not,
}

-- `sizeof(query)`
abbrev pub query_size : ℕ
query_size = 300

abbrev pub line_end : List ℕ
line_end = 13 ∷ 10 ∷ []

-- The answers of the calls; `recv` answers with `none` for a negative number and no bytes for 0.
pub record Server : Type 0 where
  pub socket : ℤ
  pub is_resolved : Bool
  pub connect : ℤ
  pub send : ℤ
  pub recv : List (Option (List ℕ))

-- How the receiving ends; it waits where `recv` has no answer yet.
pub data End : Type 0 where
  ended receiving_failed waiting : End

-- What is sent and printed; the first four exit with the status 1.
pub data Outcome : Type 0 where
  socket_failed unresolved connection_failed : Outcome
  send_failed : List ℕ → Outcome
  received : List ℕ → List ℕ → End → Outcome

-- `snprintf(query, sizeof(query), "%s\r\n", domain)`
unfoldable pub query : List ℕ → List ℕ
query domain = take (query_size - 1) (domain ++ line_end)

-- The loop over `recv`: what is printed, and the end.
unfoldable pub receive : List (Option (List ℕ)) → List ℕ × End
receive [] = ([], waiting)
receive (none ∷ answers) = ([], receiving_failed)
receive (some [] ∷ answers) = ([], ended)
receive (some (b ∷ bs) ∷ answers) =
    let (text, end) = receive answers in (c_string (b ∷ bs) ++ text, end)

unfoldable pub whois : Server → List ℕ → Outcome
unfolding query receive
whois server domain =
    if is_neg server.socket
    then socket_failed
    else if not server.is_resolved
    then unresolved
    else if not (is_zero server.connect)
    then connection_failed
    else if is_neg server.send
    then send_failed (query domain)
    else (let (text, end) = receive server.recv in received (query domain) text end)

-- `word` is what stands on the input; `scanf("%255s", domain)` takes 255 characters of it.
unfoldable pub main : Server → List ℕ → Outcome
unfolding whois
main server word = whois server (take 255 word)
