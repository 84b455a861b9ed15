-- ===== src/Dns/Host.antt =====
-- `main` of Fingerprinting/Host/host.c, with `build_query` and `parse_response` as in dig.c.
pub mod Laws
use c_network_tools.Base.{
  read_word, ℕ, ◌+◌, List, Option, some, none, ◌>>=◌, ByteOrder, if◌then◌else◌, length, take, store,
  leb, is_neg,
}
use c_network_tools.Dns.Dig.{
  build_query, parse_response, Server, Outcome, socket_failed, send_failed, receive_failed,
  finished,
}

-- `word` is what `scanf` reads into the 256 bytes of `domain`.
unfoldable pub main : ByteOrder → List ℕ → Server → List ℕ → Option Outcome
unfolding build_query parse_response
main o garbage server word = do
  domain ← read_word 256 word
  if is_neg server.socket then some socket_failed else (do
    (buffer, query_len) ← build_query o garbage domain
    let datagram = take query_len buffer
    if is_neg server.sendto then some (send_failed datagram) else elim server.recvfrom [
      | none ↦ some (receive_failed datagram)
      | some response ↦ do
        buffer ← store buffer 0 response
        ip ← parse_response o buffer
        some (finished datagram ip)
    ])
