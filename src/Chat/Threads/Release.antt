-- ===== src/Chat/Threads/Release.antt =====
-- The mutex of SocketServer.c is given back.
use c_network_tools.Base.{
  ℕ, zero, suc, ◌+◌, ◌-◌, ◌≡◌, refl, ap, ◌∙◌, true, false, List, some, none, arith, length,
  get_elem?, drop, ltb, replicate,
}
use c_network_tools.Chat.{Call, max_clients}
use c_network_tools.Chat.Threads.{
  chatting, sending, Thread, Broadcast, Server, Event, continues, go, broadcast_next, continue,
  step, run, start,
}
use c_network_tools.Chat.{broadcast_message}
use c_network_tools.Chat.Slots.{length-slots}
use c_network_tools.Chat.Laws.{reached-Holding}
use c_network_tools.Chat.Threads.View.{shown}
use c_network_tools.Chat.Threads.Commits.{broadcast_round}
use c_network_tools.Chat.Threads.Laws.{run-explained}
use c_network_tools.Chat.Threads.Held.{reached-Mutex}
use c_network_tools.Base.{get_elem?-lt, drop_all}

-- The next step of the thread in `broadcastMessage`.
held_step :
    (s : Server) (b : Broadcast) (h : Thread) (i : ℕ)
    → s.lock ≡ some b
    → get_elem? s.threads b.thread ≡ some h
    → h.place ≡ sending i
    → step s (continues b.thread) ≡ broadcast_next s b.thread h i b
unfolding step continue
held_step s b h i held found is = rw (found, is, held) refl

drained :
    (n : ℕ) (s : Server) (b : Broadcast) (h : Thread) (i : ℕ)
    → s.lock ≡ some b
    → get_elem? s.threads b.thread ≡ some h
    → h.place ≡ sending i
    → b.next + n ≡ length s.client_sockets
    → length s.client_sockets ≡ max_clients
    → run s (replicate (suc n) (continues b.thread))
      ≡ some (
        record (go s b.thread h (chatting i)) { lock = none },
        broadcast_message (drop b.next s.client_sockets) b.sender_fd b.message,
      )
unfolding run broadcast_next broadcast_message
drained zero s b h i held found is count size =
    let done : ltb b.next max_clients ≡ false = ground arith in
    let last : b.next ≡ length s.client_sockets = omega arith in
    rw (held_step s b h i held found is, done, last, drop_all s.client_sockets) refl
drained (suc n) s b h i held found is count size =
    let more : ltb b.next max_clients ≡ true = ground arith in
    let (fd, at) = get_elem?-lt s.client_sockets b.next (omega arith) in
    rw
      (
        held_step s b h i held found is,
        more,
        at,
        drained n (record s { lock = some (record b { next = suc b.next }) })
            (record b { next = suc b.next }) h i refl found is (omega arith) size,
        broadcast_round s.client_sockets b.next fd b.sender_fd b.message at,
      )
      refl

-- A thread in `broadcastMessage` is never held up: in any state that the threads can reach, so many
-- steps of it alone as there are places left and one more bring it back to its loop and give back
-- the mutex. They leave the tables, `main` and the other threads as they are, and their calls are
-- the messages to the sockets in these places.
pub run-released :
    (es : List Event) (s : Server) (calls : List Call) (b : Broadcast)
    → run start es ≡ some (s, calls)
    → s.lock ≡ some b
    → (h : Thread) × (i : ℕ) × (get_elem? s.threads b.thread ≡ some h)
      × (h.place ≡ sending i)
      × (run s (replicate (max_clients + 1 - b.next) (continues b.thread))
          ≡ some (
            record (go s b.thread h (chatting i)) { lock = none },
            broadcast_message (drop b.next s.client_sockets) b.sender_fd b.message,
          ))
run-released es s calls b ran held =
    let (h, i, found, is, le) = (reached-Mutex es s calls ran).held b held in
    let (events, told, explained, _, _, _) = run-explained es s calls ran in
    let size : length s.client_sockets ≡ max_clients =
      ap length (reached-Holding events (shown s) told explained).table
      ∙ length-slots max_clients _ in
    let count : max_clients + 1 - b.next ≡ suc (max_clients - b.next) = omega arith in
    (
      h,
      i,
      found,
      is,
      ap (λ n. run s (replicate n (continues b.thread))) count
          ∙ drained (max_clients - b.next) s b h i held found is (omega arith) size,
    )
