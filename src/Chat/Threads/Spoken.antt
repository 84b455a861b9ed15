-- ===== src/Chat/Threads/Spoken.antt =====
-- The calls of `broadcastMessage` in a run of the threads, and what every socket is sent by them.
use c_network_tools.Base.{
  ℕ, ◌≡◌, refl, ap, ap₂, ◌∙◌, sym, List, [], ◌∷◌, ◌++◌, Option, some, none, arith, replicate,
  get_elem?, ◌==◌, ◌||◌, if◌then◌else◌, append_assoc,
}
use c_network_tools.Chat.{Call, broadcast_message}
use c_network_tools.Chat.Inbox.{inbox, count, inbox-append}
use c_network_tools.Chat.Threads.{
  Place, naming, refused, finished, named, greeting, chatting, sending, ended, leaving, parting,
  heard, speaking, Thread, Server, Event, accepted, accept_failed, main_continues, received,
  continues, step,
}

-- A call of `broadcastMessage`, and `clientSockets` when it gets the mutex.
pub record Utterance : Type 0 where
  pub speaker : ℕ
  pub text : List ℕ
  pub table : List ℕ

-- The call that begins with the next statement of a thread.
abbrev pub begun : Server → Thread → Place → List Utterance
begun s h (speaking i message) =
    record { speaker = h.fd; text = message; table = s.client_sockets } ∷ []
begun s h naming = []
begun s h refused = []
begun s h finished = []
begun s h (named buffer) = []
begun s h (greeting i) = []
begun s h (chatting i) = []
begun s h (sending i) = []
begun s h (ended i) = []
begun s h (leaving i) = []
begun s h (parting i) = []
begun s h (heard i buffer) = []

abbrev pub begun_by : Server → Option Thread → List Utterance
begun_by s none = []
begun_by s (some h) = begun s h h.place

abbrev pub begun_in : Server → Event → List Utterance
begun_in s (accepted fd ip) = []
begun_in s accept_failed = []
begun_in s main_continues = []
begun_in s (received t bytes) = []
begun_in s (continues t) = begun_by s (get_elem? s.threads t)

-- The calls in a run, in the order in which they get the mutex.
unfoldable pub spoken : Server → List Event → List Utterance
spoken s [] = []
spoken s (e ∷ es) = elim (step s e) [ none ↦ [] | some r ↦ begun_in s e ++ spoken r.0 es ]

-- What a socket gets of a call: nothing if it is the speaker's, else a copy for each place of the
-- table in which it stands; 0 is a free place.
abbrev pub copies : ℕ → Utterance → ℕ
copies fd u = if fd == 0 || fd == u.speaker then 0 else count fd u.table

abbrev pub heard_by : ℕ → List Utterance → List (List ℕ)
heard_by fd [] = []
heard_by fd (u ∷ us) = replicate (copies fd u) u.text ++ heard_by fd us

abbrev pub broadcasts : List Utterance → List Call
broadcasts [] = []
broadcasts (u ∷ us) = broadcast_message u.table u.speaker u.text ++ broadcasts us

inbox-broadcast_message :
    (fd speaker : ℕ) (table text : List ℕ)
    → inbox fd (broadcast_message table speaker text)
      ≡ replicate (if fd == 0 || fd == speaker then 0 else count fd table) text
unfolding broadcast_message
inbox-broadcast_message fd speaker [] text = ground arith
inbox-broadcast_message fd speaker (s ∷ table) text =
    ground (arith, inbox-broadcast_message fd speaker table text)

pub inbox-broadcasts : (fd : ℕ) (us : List Utterance) → inbox fd (broadcasts us) ≡ heard_by fd us
inbox-broadcasts fd [] = refl
inbox-broadcasts fd (u ∷ us) =
    inbox-append fd (broadcast_message u.table u.speaker u.text) (broadcasts us)
    ∙ ap₂ ◌++◌ (inbox-broadcast_message fd u.speaker u.table u.text) (inbox-broadcasts fd us)

pub broadcasts-append :
    (us vs : List Utterance) → broadcasts (us ++ vs) ≡ broadcasts us ++ broadcasts vs
broadcasts-append [] vs = refl
broadcasts-append (u ∷ us) vs =
    ap (λ t. broadcast_message u.table u.speaker u.text ++ t) (broadcasts-append us vs)
    ∙ sym
        (append_assoc (broadcast_message u.table u.speaker u.text) (broadcasts us) (broadcasts vs))
