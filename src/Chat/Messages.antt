-- ===== src/Chat/Messages.antt =====
-- Who gets a message from the server of SocketServer.c.
use c_network_tools.Base.{ℕ, ◌≡◌, refl, ap, ◌∙◌, List, some, true, get_elem?, take, map}
use c_network_tools.Chat.{
  ClientInfo, Event, received, Chat, Call, sent, broadcast_message, step, run, start,
  handle_received, Handler, chatting, max_clients, format_message, can_receive,
}
use c_network_tools.Chat.Slots.{accepted_fds}
use c_network_tools.Chat.Laws.{others, broadcast_message-slots, reached-Holding}
use c_network_tools.Chat.Records.{index}
use c_network_tools.Chat.Owned.{reached-Owned}

-- In every state that the server can reach, what a registered client writes goes, with the name and
-- the address of a record that has the client's own socket, to the first ten sockets that were ever
-- accepted, in that order, but not to those with the number of the client's socket; nothing else
-- changes.
pub received-others :
    (es : List Event) (s : Chat) (calls : List Call) (t i : ℕ) (h : Handler) (buffer : List ℕ)
    → run start es ≡ some (s, calls)
    → get_elem? s.handlers t ≡ some h
    → h.phase ≡ chatting i
    → can_receive (some buffer) ≡ true
    → (c : ClientInfo) × (get_elem? s.clients i ≡ some c)
      × (c.socket ≡ h.fd)
      × (step s (received t (some buffer))
          ≡ some (
            s,
            map
                (λ fd. sent fd (format_message c buffer))
                (others h.fd (take max_clients (accepted_fds es))),
          ))
unfolding step handle_received
received-others es s calls t i h buffer e found chats fits =
    let holding = reached-Holding es s calls e in
    let (c, record_found, owner) = (reached-Owned es s calls e).own t i h found (ap index chats) in
    let sends =
      ap (λ ss. broadcast_message ss h.fd (format_message c buffer)) holding.table
      ∙ broadcast_message-slots max_clients (accepted_fds es) h.fd (format_message c buffer)
          holding.nonzero in
    (c, record_found, owner, rw (fits, found, chats) (rw (record_found, sends) refl))
