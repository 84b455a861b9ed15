-- ===== src/Chat/Room/Laws.antt =====
-- Every run of the server of SocketServer.c is a run of the room.
use c_network_tools.Base.{
  ◌≡◌, refl, ap, ap₂, List, [], ◌∷◌, ◌++◌, Option, some, none, arith, Holds, ◌>>=◌,
  get_elem?-replicate,
}
use mathlib.Core.Path.{subst}
use c_network_tools.Chat.{
  Event, accepted, accept_failed, received, cleared, Call, sent, closed, can_receive, max_clients,
  Chat, ClientInfo, Handler, Phase, naming, chatting, leaving, finished, move, register,
  handle_received, handle_cleared, handle_accepted, in_use, is_open, add_socket, broadcast_message,
  format_message, strncpy, start,
}
use c_network_tools.Chat
use c_network_tools.Chat.Slots.{slots}
use c_network_tools.Chat.Records.{Owned}
use c_network_tools.Chat.Owned.{step-Owned, start-Owned}
use c_network_tools.Chat.Counted.{Counted, step-Counted, start-Counted}
use c_network_tools.Chat.Room.{
  Member, waiting, talking, closing, gone, Room, line, become, hear, leave, admit, has_socket,
  present, empty,
}
use c_network_tools.Chat.Room
use c_network_tools.Chat.Room.Names.{Closed}
use c_network_tools.Chat.Room.Views.{Views, Agree}
use c_network_tools.Chat.Room.Agreement.{step_agrees}

-- The calls of a run, if it can happen.
abbrev pub observed {ℓ} : {S : Type ℓ} → Option (S × List Call) → Option (List Call)
observed none = none
observed (some (s, calls)) = some calls

prefixed :
    (calls calls' : List Call) (x : Option (Chat × List Call)) (y : Option (Room × List Call))
    → calls ≡ calls'
    → Agree x y
    → Agree
        (x >>= λ (s, more). some (s, calls ++ more))
        (y >>= λ (r, more). some (r, calls' ++ more))
prefixed calls calls' none none e a = tt
prefixed calls calls' none (some r) e a = absurd a
prefixed calls calls' (some s) none e a = absurd a
prefixed calls calls' (some s) (some r) e (v, same) = (v, ap₂ ◌++◌ e same)

run_agrees :
    (s : Chat) (r : Room) (es : List Event)
    → Views s r
    → Owned s
    → Counted s
    → Agree (Chat.run s es) (Room.run r es)
unfolding Chat.run Room.run
run_agrees s r [] v o k = (v, refl)
run_agrees s r (e ∷ es) v o k =
    joined (Chat.step s e) (Room.step r e) (step_agrees s r e v o k) (step-Owned s e o)
      (step-Counted s e k) (λ s' r'. run_agrees s' r' es)
  where
    joined :
        (x : Option (Chat × List Call)) (y : Option (Room × List Call))
        → Agree x y
        → Holds (λ (r : Chat × List Call). Owned r.0) x
        → Holds (λ (r : Chat × List Call). Counted r.0) x
        → ((s' : Chat) (r' : Room)
            → Views s' r'
            → Owned s'
            → Counted s'
            → Agree (Chat.run s' es) (Room.run r' es))
        → Agree
            (x >>= λ (s', calls). Chat.run s' es >>= λ (s'', more). some (s'', calls ++ more))
            (y >>= λ (r', calls). Room.run r' es >>= λ (r'', more). some (r'', calls ++ more))
    joined none none a o k ih = tt
    joined none (some y) a o k ih = absurd a
    joined (some x) none a o k ih = absurd a
    joined (some (s', calls)) (some (r', calls')) (v', same) o k ih =
        prefixed calls calls' (Chat.run s' es) (Room.run r' es) same (ih s' r' v' o k)

start_agrees : (es : List Event) → Agree (Chat.run start es) (Room.run empty es)
start_agrees es = run_agrees start empty es at_start start-Owned start-Counted
  where
    at_start : Views start empty
    at_start =
        unfold slots in
        record {
          table = refl;
          nonzero = tt;
          few = omega arith;
          threads = refl;
          members = refl;
          buffers = λ i c found.
              subst (λ (c : ClientInfo). Closed 49 c.name × Closed 15 c.ip)
                (get_elem?-replicate max_clients _ i c found)
                (record { size = refl; end = refl }, record { size = refl; end = refl });
        }

-- The server and the room, from their starts: for every list of events, either it can happen in
-- neither, or it happens in both with the same calls of `send` and `close`, in the same order.
pub run-observed : (es : List Event) → observed (Chat.run start es) ≡ observed (Room.run empty es)
run-observed es = same (Chat.run start es) (Room.run empty es) (start_agrees es)
  where
    same :
        (x : Option (Chat × List Call)) (y : Option (Room × List Call))
        → Agree x y
        → observed x ≡ observed y
    same none none a = refl
    same none (some r) a = absurd a
    same (some s) none a = absurd a
    same (some s) (some r) (v, e) = ap some e
