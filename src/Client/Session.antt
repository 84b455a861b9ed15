-- ===== src/Client/Session.antt =====
-- A session of SocketClient.c with SocketServer.c.
use c_network_tools.Base.{
  ℕ, ◌<◌, ◌≡◌, refl, ap, ap₂, take_le, ◌∙◌, sym, true, List, [], ◌∷◌, ◌++◌, Option, some, none,
  arith, length, take, ◌>>=◌, append_assoc, map, get_elem?, c_string, c_string-NoNul, NoNul,
}
use c_network_tools.Chat.{Event, received, Call, sent, can_receive, start}
use c_network_tools.Chat
use c_network_tools.Chat.Records.{get_elem?-set_same}
use c_network_tools.Chat.Laws.{others}
use c_network_tools.Chat.Room.{Member, waiting, talking, Room, line, become, hear, empty}
use c_network_tools.Chat.Room
use c_network_tools.Chat.Room.Laws.{observed, run-observed}
use c_network_tools.Client.{main, World, left}
use c_network_tools.Client.Lines.{IsText}
use c_network_tools.Client.Laws.{until_exit, typed, Works, main-left}

-- One `recv` of the server for each `send` of the client.
abbrev pub heard : ℕ → List (List ℕ) → List Event
heard t [] = []
heard t (b ∷ bs) = received t (some b) ∷ heard t bs

-- Each of them can be received at once: none is empty, and none too long.
abbrev pub AreReceived : List (List ℕ) → Type 0
AreReceived [] = Unit
AreReceived (b ∷ bs) = (can_receive (some b) ≡ true) × AreReceived bs

-- What is sent when a client says these texts.
abbrev pub spread : List ℕ → List ℕ → List ℕ → List (List ℕ) → List Call
spread tos name ip [] = []
spread tos name ip (b ∷ bs) = map (λ to. sent to (line name ip b)) tos ++ spread tos name ip bs

run-heard :
    (r : Room) (t fd : ℕ) (name ip : List ℕ) (bs : List (List ℕ))
    → get_elem? r.members t ≡ some (talking fd name ip)
    → AreReceived bs
    → Room.run r (heard t bs) ≡ some (r, spread (others fd r.joined) name ip bs)
unfolding Room.run Room.step hear
run-heard r t fd name ip [] e h = refl
run-heard r t fd name ip (b ∷ bs) e h = rw (h.0, e) (rw (run-heard r t fd name ip bs e h.1) refl)

run-session :
    (r : Room) (t fd : ℕ) (ip nickname : List ℕ) (bs : List (List ℕ))
    → get_elem? r.members t ≡ some (waiting fd ip)
    → AreReceived (nickname ∷ bs)
    → observed (Room.run r (heard t (nickname ∷ bs)))
      ≡ some (spread (others fd r.joined) (take 49 (c_string nickname)) (take 15 (c_string ip)) bs)
unfolding Room.run Room.step hear
run-session r t fd ip nickname bs e h =
    let name = take 49 (c_string nickname) in
    let address = take 15 (c_string ip) in
    let talks = get_elem?-set_same r.members t (waiting fd ip) (talking fd name address) e in
    rw (h.0, e)
      (rw (run-heard (become r t (talking fd name address)) t fd name address bs talks h.1) refl)

abbrev after : List Call → Room × List Call → Option (Room × List Call)
after calls y = some (y.0, calls ++ y.1)

abbrev then_run : List Event → Room × List Call → Option (Room × List Call)
then_run fs x = Room.run x.0 fs >>= after x.1

after-after :
    (c d : List Call) (o : Option (Room × List Call))
    → ((o >>= after d) >>= after c) ≡ (o >>= after (c ++ d))
after-after c d none = refl
after-after c d (some y) = ap (λ cs. some (y.0, cs)) (sym (append_assoc c d y.1))

after_nothing : (o : Option (Room × List Call)) → o ≡ (o >>= after [])
after_nothing none = refl
after_nothing (some y) = refl

-- A run of two lists of events is a run of the one and then of the other.
run-append :
    (r : Room) (es fs : List Event) → Room.run r (es ++ fs) ≡ (Room.run r es >>= then_run fs)
unfolding Room.run
run-append r [] fs = after_nothing (Room.run r fs)
run-append r (e ∷ es) fs = through (Room.step r e) (λ r'. run-append r' es fs)
  where
    regrouped :
        (c : List Call) (o : Option (Room × List Call))
        → ((o >>= then_run fs) >>= after c) ≡ ((o >>= after c) >>= then_run fs)
    regrouped c none = refl
    regrouped c (some (r', d)) = after-after c d (Room.run r' fs)

    through :
        (o : Option (Room × List Call))
        → ((r' : Room) → Room.run r' (es ++ fs) ≡ (Room.run r' es >>= then_run fs))
        → (o >>= then_run (es ++ fs)) ≡ ((o >>= then_run es) >>= then_run fs)
    through none ih = refl
    through (some (r', c)) ih =
        ap (λ (o : Option (Room × List Call)). o >>= after c) (ih r') ∙ regrouped c (Room.run r' es)

observed-after :
    (c : List Call) (o : Option (Room × List Call))
    → observed (o >>= after c) ≡ (observed o >>= λ more. some (c ++ more))
observed-after c none = refl
observed-after c (some y) = refl

pub NoNul-IsText : (t : List ℕ) → IsText t → NoNul t
NoNul-IsText [] h = tt
NoNul-IsText (c ∷ t) h = (h.0, NoNul-IsText t h.2)

-- A client of SocketClient.c with a connection, a thread that can be made, sends that succeed, and
-- an input of a name of fewer than 49 characters and further lines, all without zero bytes, at a
-- server that has let it in and waits for its name. If the server receives each `send` at once, and
-- none is empty or longer than a buffer, then for each line in front of the first `exit` the server
-- sends to all other sockets that were let in the text that `snprintf` makes of the name, the
-- address and the line, which are cut together after 1073 bytes; and it sends nothing else.
pub session-calls :
    (before : List Event) (r : Room) (calls : List Call) (t fd : ℕ) (ip garbage name : List ℕ)
    (w : World) (texts : List (List ℕ))
    → Room.run empty before ≡ some (r, calls)
    → get_elem? r.members t ≡ some (waiting fd ip)
    → Works garbage w name texts
    → length name < 49
    → AreReceived (name ∷ until_exit texts)
    → (nickname : List ℕ) × (sends : List (List ℕ)) × (main garbage w ≡ some (left nickname sends))
      × (observed (Chat.run start (before ++ heard t (nickname ∷ sends)))
          ≡ some (
              calls ++ spread (others fd r.joined) name (take 15 (c_string ip)) (until_exit texts)))
session-calls before r calls t fd ip garbage name w texts ran waits works short fits =
    (name, until_exit texts, sends, server)
  where
    sends : main garbage w ≡ some (left name (until_exit texts))
    sends =
        main-left garbage w name texts works
        ∙ ap₂ (λ n ts. some (left n (until_exit ts))) (take_le 49 name (omega arith)) all_typed
      where
        all_typed : typed name texts ≡ texts
        all_typed = ground (arith, short)

    label : take 49 (c_string name) ≡ name
    label =
        ap (take 49) (c_string-NoNul name (NoNul-IsText name works.named))
        ∙ take_le 49 name (omega arith)

    server :
        observed (Chat.run start (before ++ heard t (name ∷ until_exit texts)))
        ≡ some
            (calls ++ spread (others fd r.joined) name (take 15 (c_string ip)) (until_exit texts))
    server =
        run-observed (before ++ heard t (name ∷ until_exit texts))
        ∙ ap observed (run-append empty before (heard t (name ∷ until_exit texts)))
        ∙ rw ran (
            observed-after calls (Room.run r (heard t (name ∷ until_exit texts)))
            ∙ ap (λ (o : Option (List Call)). o >>= λ more. some (calls ++ more))
                (run-session r t fd ip name (until_exit texts) waits fits)
            ∙ ap
                (λ n. some (
                  calls
                  ++ spread (others fd r.joined) n (take 15 (c_string ip)) (until_exit texts)))
                label)
