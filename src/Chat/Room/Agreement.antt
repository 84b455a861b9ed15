-- ===== src/Chat/Room/Agreement.antt =====
-- A step of the server of SocketServer.c and the same step of the room.
use c_network_tools.Base.{
  ℕ, ◌<◌, ◌≤◌, ◌≡◌, ◌≢◌, inl, inr, refl, ap, ap₂, ◌∙◌, sym, Bool, true, false, Bool-cases, List, [],
  ◌∷◌, ◌++◌, Option, some, none, arith, length, map, get_elem?, NoNul-append, ◌>>=◌, ◌==◌, ◌&&◌,
  ◌||◌, if◌then◌else◌, ltb, get_elem?-map, length-append,
}
use mathlib.Core.List.{map-append}
use c_network_tools.Chat.{
  Event, accepted, accept_failed, received, cleared, Call, sent, closed, can_receive, max_clients,
  Chat, ClientInfo, Handler, Phase, naming, chatting, leaving, finished, move, register,
  handle_received, handle_cleared, handle_accepted, in_use, is_open, add_socket, broadcast_message,
  format_message, strncpy, start,
}
use c_network_tools.Chat
use c_network_tools.Chat.Slots.{add_socket-slots_free, add_socket-slots_full}
use c_network_tools.Chat.Records.{Owned}
use c_network_tools.Chat.Counted.{Counted}
use c_network_tools.Chat.Room.{
  Member, waiting, talking, closing, gone, Room, line, become, hear, leave, admit, has_socket,
  present, empty,
}
use c_network_tools.Chat.Room
use c_network_tools.Chat.Room.Views.{Views, Agree, view, view_at, talker}
use c_network_tools.Chat.Room.Refine.{received_agrees, cleared_agrees}

-- The kernel gives out the same sockets in both.
in_use-present :
    (cs : List ClientInfo) (hs : List Handler) (fd : ℕ)
    → in_use hs fd ≡ present (map (view cs) hs) fd
unfolding in_use present
in_use-present cs [] fd = refl
in_use-present cs (h ∷ hs) fd = ap₂ ◌||◌ (at_phase h.phase) (in_use-present cs hs fd)
  where
    at_phase : (p : Phase) → ((h.fd == fd) && is_open p) ≡ has_socket fd (view_at cs h.fd h.ip p)
    at_phase naming = ground arith
    at_phase (chatting i) = talks (get_elem? cs i)
      where
        talks : (m : Option ClientInfo) → ((h.fd == fd) && true) ≡ has_socket fd (talker h.fd m)
        talks none = ground arith
        talks (some c) = ground arith
    at_phase (leaving i) = ground arith
    at_phase finished = ground arith

accepted_agrees :
    (s : Chat) (r : Room) (fd : ℕ) (ip : List ℕ)
    → Views s r
    → fd ≢ 0
    → Agree (some (handle_accepted s fd ip)) (some (admit r fd ip))
unfolding admit handle_accepted
accepted_agrees s r fd ip v nz = elim (Bool-cases (ltb (length r.joined) max_clients)) [
  | inl room ↦
      let lt : length r.joined < max_clients = ground arith in
      let added =
        ap (λ ss. add_socket ss fd) v.table
        ∙ add_socket-slots_free max_clients r.joined fd v.nonzero lt in
      rw (room, added, handle_accepted)
        (
          record {
            table = refl;
            nonzero = NoNul-append r.joined (fd ∷ []) v.nonzero (nz, tt);
            few = omega (arith, length-append r.joined (fd ∷ []));
            threads = omega (
              arith,
              v.threads,
              length-append r.joined (fd ∷ []),
              length-append s.handlers (record { fd = fd; ip = ip; phase = naming } ∷ []),
            );
            members =
                ap (λ ms. ms ++ waiting fd ip ∷ []) v.members
                ∙ sym (
                    map-append (view s.clients) s.handlers
                      (record { fd = fd; ip = ip; phase = naming } ∷ []));
            buffers = v.buffers;
          },
          refl,
        )
  | inr full ↦
      let le : max_clients ≤ length r.joined = ground arith in
      let refused =
        ap (λ ss. add_socket ss fd) v.table
        ∙ add_socket-slots_full max_clients r.joined fd v.nonzero le in
      rw (full, refused, handle_accepted) (v, refl)
]

-- A thread and the member that it serves take the same step.
Agree-bind :
    (s : Chat) (r : Room) (t : ℕ) (f : Handler → Option (Chat × List Call))
    (g : Member → Option (Room × List Call))
    → Views s r
    → ((h : Handler) → get_elem? s.handlers t ≡ some h → Agree (f h) (g (view s.clients h)))
    → Agree (get_elem? s.handlers t >>= f) (get_elem? r.members t >>= g)
Agree-bind s r t f g v agree = rw at_member (through (get_elem? s.handlers t) refl)
  where
    at_member : get_elem? r.members t ≡ (get_elem? s.handlers t >>= λ h. some (view s.clients h))
    at_member = ap (λ ms. get_elem? ms t) v.members ∙ get_elem?-map (view s.clients) s.handlers t

    through :
        (m : Option Handler)
        → get_elem? s.handlers t ≡ m
        → Agree (m >>= f) ((m >>= λ h. some (view s.clients h)) >>= g)
    through none e = tt
    through (some h) e = agree h e

Agree-if :
    (b : Bool) (x : Option (Chat × List Call)) (y : Option (Room × List Call))
    → (b ≡ true → Agree x y)
    → Agree (if b then x else none) (if b then y else none)
Agree-if true x y h = h refl
Agree-if false x y h = tt

Agree-if_not :
    (b : Bool) (x : Option (Chat × List Call)) (y : Option (Room × List Call))
    → (b ≡ false → Agree x y)
    → Agree (if b then none else x) (if b then none else y)
Agree-if_not true x y h = tt
Agree-if_not false x y h = h refl

pub step_agrees :
    (s : Chat) (r : Room) (e : Event)
    → Views s r
    → Owned s
    → Counted s
    → Agree (Chat.step s e) (Room.step r e)
unfolding Chat.step Room.step
step_agrees s r (accepted fd ip) v o k =
    let same : present r.members fd ≡ in_use s.handlers fd =
      ap (λ ms. present ms fd) v.members ∙ sym (in_use-present s.clients s.handlers fd) in
    rw same (
      Agree-if_not (fd == 0 || in_use s.handlers fd) _ _
        (λ e. accepted_agrees s r fd ip v (ground arith)))
step_agrees s r accept_failed v o k = (v, refl)
step_agrees s r (received t b) v o k =
    Agree-if (can_receive b) _ _
      (λ e. Agree-bind s r t _ _ v (λ h found. received_agrees s r t h h.phase b v o k found refl))
step_agrees s r (cleared t) v o k =
    Agree-bind s r t _ _ v (λ h found. cleared_agrees s r t h h.phase v o found refl)
