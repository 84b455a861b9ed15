-- ===== src/Whois/Laws.antt =====
-- What whois.c sends and prints.
use c_network_tools.Base.{
  ℕ, ◌+◌, ◌<◌, ◌≡◌, refl, List, [], ◌∷◌, ◌++◌, Option, some, arith, true, false, length, map,
  is_neg, is_zero, NoNul, c_string-NoNul, take_le, take, length-take, length-append,
}
use c_network_tools.Whois.{
  Server, received, ended, query, receive, whois, main, line_end, query_size,
}

-- Parts of an answer: none is empty, and none has a zero.
abbrev pub AreParts : List (List ℕ) → Type 0
AreParts [] = Unit
AreParts (p ∷ ps) = (0 < length p) × NoNul p × AreParts ps

abbrev pub joined : List (List ℕ) → List ℕ
joined [] = []
joined (p ∷ ps) = p ++ joined ps

receive-joined :
    (parts : List (List ℕ)) (behind : List (Option (List ℕ)))
    → AreParts parts
    → receive (map some parts ++ some [] ∷ behind) ≡ (joined parts, ended)
unfolding receive
receive-joined [] behind h = refl
receive-joined ([] ∷ ps) behind h = absurd (omega (arith, h.0))
receive-joined ((b ∷ bs) ∷ ps) behind (h, nz, hs) =
    rw (receive-joined ps behind hs, c_string-NoNul (b ∷ bs) nz) refl

query_whole : (domain : List ℕ) → length domain + 2 < query_size → query domain ≡ domain ++ line_end
unfolding query
query_whole domain h =
    take_le 299 (domain ++ line_end) (omega (arith, length-append domain line_end))

-- Where the socket, the name of the server, the connection and the sending succeed, a domain of 297
-- characters at most is sent with the end of a line, and the whole answer is printed, however it
-- was cut into parts, if no part is empty and none has a zero byte.
pub whois-joined :
    (server : Server) (domain : List ℕ) (parts : List (List ℕ)) (behind : List (Option (List ℕ)))
    → is_neg server.socket ≡ false
    → server.is_resolved ≡ true
    → is_zero server.connect ≡ true
    → is_neg server.send ≡ false
    → length domain + 2 < query_size
    → AreParts parts
    → server.recv ≡ map some parts ++ some [] ∷ behind
    → whois server domain ≡ received (domain ++ line_end) (joined parts) ended
unfolding whois
whois-joined server domain parts behind made resolved connected sent fits h answers =
    rw
      (
        made,
        resolved,
        connected,
        sent,
        answers,
        receive-joined parts behind h,
        query_whole domain fits,
      )
      refl

-- Where the socket, the name of the server, the connection and the sending succeed, at most 255
-- characters of the word are sent with the end of a line, and the whole answer is printed, however
-- it was cut into parts, if no part is empty and none has a zero byte.
pub main-joined :
    (server : Server) (word : List ℕ) (parts : List (List ℕ)) (behind : List (Option (List ℕ)))
    → is_neg server.socket ≡ false
    → server.is_resolved ≡ true
    → is_zero server.connect ≡ true
    → is_neg server.send ≡ false
    → AreParts parts
    → server.recv ≡ map some parts ++ some [] ∷ behind
    → main server word ≡ received (take 255 word ++ line_end) (joined parts) ended
unfolding main
main-joined server word parts behind made resolved connected sent h answers =
    whois-joined server (take 255 word) parts behind made resolved connected sent
      (omega (arith, length-take 255 word)) h answers
