-- ===== src/Tests/Replies.antt =====
-- Replies of name servers.
use c_network_tools.Base.{
  ℕ, ◌≡◌, refl, List, [], ◌∷◌, ◌++◌, some, none, arith, little, big, replicate, load16, pos,
}
use c_network_tools.Dns.Nslookup
use c_network_tools.Dns.Nslookup.Reply.{Answer, addresses, parse_dns_response-reply}
use c_network_tools.Dns.Nslookup.Reply
use c_network_tools.Dns.Nslookup.Query.{question_for}
use c_network_tools.Dns.Nslookup.Exchange.{send_dns_query-printed}
use c_network_tools.Dns.Nslookup.Overrun.{parse_dns_response_overrun}
use c_network_tools.Dns.Name.{labels}

abbrev alias : Answer
alias = record {
  pointer_high = 0xc0;
  pointer_low = 12;
  type = 5;
  class = 1;
  ttl_high = 0;
  ttl_low = 60;
  rdata = 1 ∷ 98 ∷ 0 ∷ [];
}

abbrev address : Answer
address = record alias { type = 1; rdata = 93 ∷ 184 ∷ 216 ∷ 34 ∷ [] }

abbrev start : List ℕ
start = 4 ∷ 210 ∷ 0x81 ∷ 0x80 ∷ 0 ∷ 1 ∷ []

abbrev qname : List ℕ
qname = 1 ∷ 97 ∷ []

abbrev question : List ℕ
question = 0 ∷ 1 ∷ 0 ∷ 1 ∷ []

abbrev overfull : List ℕ
overfull = 0 ∷ 0 ∷ 0 ∷ 0 ∷ 0 ∷ 0 ∷ 0 ∷ 42 ∷ replicate 504 1

parse_dns_response_overrun_example : Nslookup.parse_dns_response big overfull 60 ≡ none
parse_dns_response_overrun_example =
    parse_dns_response_overrun big overfull 60 42 announced (omega arith) (omega arith)
  where
    announced : load16 big overfull 6 ≡ some 42
    announced = unfold load16 in refl

-- What stands in front of the dot.
abbrev example : List ℕ
example = b'e' ∷ b'x' ∷ b'a' ∷ b'm' ∷ b'p' ∷ b'l' ∷ b'e' ∷ []

abbrev answering : Nslookup.Server
answering = record {
  socket = pos 3;
  recvfrom = some (Reply.reply start (replicate 4 0) qname question (alias ∷ address ∷ []));
}

two_labels : labels Nslookup.host ≡ example ∷ [] ++ (b'c' ∷ b'o' ∷ b'm' ∷ []) ∷ []
unfolding labels
two_labels = refl

send_dns_query-printed_example :
    Nslookup.send_dns_query little (replicate 512 0) answering Nslookup.host
    ≡ some
        (Nslookup.printed (question_for little (example ∷ [])) 2 ((93 ∷ 184 ∷ 216 ∷ 34 ∷ []) ∷ []))
send_dns_query-printed_example =
    send_dns_query-printed little Nslookup.host example (b'c' ∷ b'o' ∷ b'm' ∷ []) [] answering start
      (replicate 4 0) qname question (alias ∷ address ∷ []) two_labels (omega arith) (omega arith)
      refl refl (omega arith) refl refl (omega arith) refl (omega arith)
      (
        (omega arith, omega arith, omega arith, λ e. absurd (omega arith)),
        ((omega arith, omega arith, omega arith, λ e. omega arith), tt),
      )

-- The program asks for `example`.
main_asks :
    Nslookup.main little (replicate 512 0) answering
    ≡ some
        (Nslookup.printed (question_for little (example ∷ [])) 2 ((93 ∷ 184 ∷ 216 ∷ 34 ∷ []) ∷ []))
unfolding Nslookup.main
main_asks = send_dns_query-printed_example
