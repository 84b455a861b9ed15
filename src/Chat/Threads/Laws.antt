-- ===== src/Chat/Threads/Laws.antt =====
-- Every run of the threads is explained by a run of Chat, in which they take their steps at once.
use c_network_tools.Base.{
  ◌≡◌, refl, ap, ◌∙◌, sym, List, [], ◌∷◌, ◌++◌, some, get_elem?, ◌==◌, ◌||◌, append_assoc,
  append-nil, Holds, Holds-if, Holds-bind, Holds-then, Holds-some,
}
use mathlib.Core.Path.{subst}
use c_network_tools.Chat.{Call, can_receive}
use c_network_tools.Chat
use c_network_tools.Chat.Room.{empty}
use c_network_tools.Chat.Room
use c_network_tools.Chat.Room.Laws.{observed, run-observed}
use c_network_tools.Chat.Threads.{
  Server, Event, accepted, accept_failed, main_continues, received, continues, is_accepting, accept,
  receive, in_use, step, run, start,
}
use c_network_tools.Chat.Threads.View.{shown, sends, closes}
use c_network_tools.Chat.Threads.Explained.{Explained, unsent}
use c_network_tools.Chat.Threads.Commits.{After}
use c_network_tools.Chat.Threads.Handler.{continue-Explained, receive-Explained}
use c_network_tools.Chat.Threads.Listening.{accept-Explained, continue_main-Explained}

pub step-Explained :
    (s : Server) (calls : List Call) (e : Event)
    → Explained s calls
    → Holds (After calls) (step s e)
unfolding step
step-Explained s calls (accepted fd ip) x =
    Holds-if (After calls) (fd == 0 || in_use s.threads fd) _ _ (λ e. tt)
      (λ fresh.
        Holds-then (λ s'. Explained s' (calls ++ [])) (After calls) (accept s fd ip s.main) _
          (accept-Explained s calls fd ip s.main x fresh) (λ s' x'. x'))
step-Explained s calls accept_failed x =
    Holds-if (After calls) (is_accepting s.main) _ _
      (λ e. subst (Explained s) (sym (append-nil calls)) x) (λ e. tt)
step-Explained s calls main_continues x = continue_main-Explained s calls s.main x
step-Explained s calls (received t bytes) x =
    Holds-if (After calls) (can_receive bytes) _ _
      (λ fits. Holds-bind (After calls) (get_elem? s.threads t) _ (λ h found.
        Holds-then (λ s'. Explained s' (calls ++ [])) (After calls) (receive s t h h.place bytes) _
          (receive-Explained s calls x t h found h.place bytes refl fits) (λ s' x'. x')))
      (λ e. tt)
step-Explained s calls (continues t) x =
    Holds-bind (After calls) (get_elem? s.threads t) _
      (λ h found. continue-Explained s calls x t h found h.place refl)

run-Explained :
    (s : Server) (calls : List Call) (es : List Event)
    → Explained s calls
    → Holds (After calls) (run s es)
unfolding run
run-Explained s calls [] x = subst (Explained s) (sym (append-nil calls)) x
run-Explained s calls (e ∷ es) x =
    Holds-then (After calls) (After calls) (step s e) _ (step-Explained s calls e x)
      (λ (s', more) x'.
        Holds-then (After (calls ++ more)) (After calls) (run s' es) _
          (run-Explained s' (calls ++ more) es x')
          (λ (s'', rest) x''. subst (Explained s'') (append_assoc calls more rest) x''))

pub start-Explained : Explained start []
unfolding Chat.run
start-Explained = record {
  events = [];
  told = [];
  ran = refl;
  same = refl;
  shut = refl;
  carried = λ t h e. cc;
  socket = tt;
}

-- For every run of the threads there are events of Chat, which lead it to what the threads' state
-- shows, and which the room takes with the same calls; these calls close the sockets that the
-- threads closed, in the same order, and send the messages that the threads sent, in the same
-- order, followed by those that the call of `broadcastMessage` in the mutex has yet to send.
pub run-explained :
    (es : List Event) (s : Server) (calls : List Call)
    → run start es ≡ some (s, calls)
    → (events : List Chat.Event) × (told : List Call) × (Chat.run Chat.start events
        ≡ some (shown s, told))
      × (observed (Room.run empty events) ≡ some told)
      × (closes told ≡ closes calls)
      × (sends told ≡ sends calls ++ unsent s.client_sockets s.lock)
run-explained es s calls ran =
    let x = Holds-some (After []) _ (s, calls) ran (run-Explained start [] es start-Explained) in
    (x.events, x.told, x.ran, sym (run-observed x.events) ∙ ap observed x.ran, x.shut, x.same)
