-- ===== src/Chat/Room/Refine.antt =====
-- The server of SocketServer.c does what the room does.
use c_network_tools.Base.{
  ℕ, ◌≡◌, inl, inr, refl, ap, ap₂, ◌∙◌, sym, List, [], ◌∷◌, Option, some, none, arith, take, map,
  get_elem?, set, c_string, Holds-some, Option-cases, take_le,
}
use mathlib.Core.Path.{subst}
use c_network_tools.Chat.{
  sent, closed, max_clients, Chat, ClientInfo, Handler, Phase, naming, chatting, leaving, finished,
  move, register, handle_received, handle_cleared, broadcast_message, format_message,
}
use c_network_tools.Chat.Records.{
  index, Owned, Owned-apart, get_elem?-set_same, get_elem?-set_other, every-set,
}
use c_network_tools.Chat.Laws.{others, broadcast_message-slots}
use c_network_tools.Chat.Owned.{Takes, register-Takes, filled}
use c_network_tools.Chat.Counted.{Counted, register-ne-none}
use c_network_tools.Chat.Room.{talking, Room, become, hear, leave}
use c_network_tools.Chat.Room.Names.{Closed, c_string-strncpy, strncpy-Closed}
use c_network_tools.Chat.Room.Views.{Views, Agree, view_at, talker, Views-change, Views-move}

-- A thread registers: the record that it fills is no other thread's.
Views-register :
    (s : Chat) (r : Room) (t i : ℕ) (h : Handler) (c : ClientInfo) (buffer : List ℕ)
    → Views s r
    → Owned s
    → get_elem? s.clients i ≡ some c
    → c.socket ≡ 0
    → Views
        (move (record s { clients = set s.clients i (filled c h.fd buffer h.ip) }) t h (chatting i))
        (become r t (talking h.fd (take 49 (c_string buffer)) (take 15 (c_string h.ip))))
Views-register s r t i h c buffer v o found free =
    subst
      (λ m.
        Views (move (record s { clients = set s.clients i new }) t h (chatting i)) (become r t m))
      named
      (Views-change s r t h (chatting i) (set s.clients i new) v buffers (λ t' j k other old x.
        get_elem?-set_other s.clients i j new (Owned-apart s t' i j k c o found free old x)))
  where
    new : ClientInfo
    new = filled c h.fd buffer h.ip

    buffers :
        (j : ℕ) (d : ClientInfo)
        → get_elem? (set s.clients i new) j ≡ some d
        → Closed 49 d.name × Closed 15 d.ip
    buffers =
        let (n, p) = v.buffers i c found in
        every-set (λ (d : ClientInfo). Closed 49 d.name × Closed 15 d.ip) s.clients i c new found
          (strncpy-Closed 49 c.name buffer n, strncpy-Closed 15 c.ip h.ip p) v.buffers

    named :
        talker h.fd (get_elem? (set s.clients i new) i)
        ≡ talking h.fd (take 49 (c_string buffer)) (take 15 (c_string h.ip))
    named =
        let (n, p) = v.buffers i c found in
        ap (talker h.fd) (get_elem?-set_same s.clients i c new found)
        ∙ ap₂ (talking h.fd) (c_string-strncpy 49 c.name buffer n) (c_string-strncpy 15 c.ip h.ip p)

pub received_agrees :
    (s : Chat) (r : Room) (t : ℕ) (h : Handler) (p : Phase) (b : Option (List ℕ))
    → Views s r
    → Owned s
    → Counted s
    → get_elem? s.handlers t ≡ some h
    → h.phase ≡ p
    → Agree (handle_received s t h p b) (hear r t (view_at s.clients h.fd h.ip p) b)
unfolding handle_received hear
received_agrees s r t h naming none v o k found is = (Views-move s r t h finished v, refl)
received_agrees s r t h naming (some b) v o k found is =
    elim (Option-cases (register s.clients h.fd b h.ip)) [
      | inl full ↦
          absurd (register-ne-none s t h b h.ip k (omega (arith, v.threads, v.few)) found is full)
      | inr ((cs, i), made) ↦
          let (c, there, free, written) =
            Holds-some (Takes s.clients h.fd b h.ip) _ (cs, i) made
              (register-Takes s.clients h.fd b h.ip) in
          rw (made, Agree)
            (
              subst
                  (λ cs.
                    Views (move (record s { clients = cs }) t h (chatting i))
                      (become r t (talking h.fd (take 49 (c_string b)) (take 15 (c_string h.ip)))))
                  (sym written) (Views-register s r t i h c b v o there free),
              refl,
            )
    ]
received_agrees s r t h (chatting i) none v o k found is = through (get_elem? s.clients i)
  where
    through :
        (m : Option ClientInfo)
        → Agree (some (move s t h (leaving i), closed h.fd ∷ [])) (hear r t (talker h.fd m) none)
    through none = (Views-move s r t h (leaving i) v, refl)
    through (some c) = (Views-move s r t h (leaving i) v, refl)
received_agrees s r t h (chatting i) (some b) v o k found is =
    let (c, there, owner) = o.own t i h found (ap index is) in
    let sends =
      ap (λ ss. broadcast_message ss h.fd (format_message c b)) v.table
      ∙ broadcast_message-slots max_clients r.joined h.fd (format_message c b) v.nonzero
      ∙ ap (λ fds. map (λ fd. sent fd (format_message c b)) (others h.fd fds))
          (take_le max_clients r.joined v.few) in
    rw (there, Agree) (v, sends ∙ unfold format_message in refl)
received_agrees s r t h (leaving i) b v o k found is = tt
received_agrees s r t h finished b v o k found is = tt

pub cleared_agrees :
    (s : Chat) (r : Room) (t : ℕ) (h : Handler) (p : Phase)
    → Views s r
    → Owned s
    → get_elem? s.handlers t ≡ some h
    → h.phase ≡ p
    → Agree (handle_cleared s t h p) (leave r t (view_at s.clients h.fd h.ip p))
unfolding handle_cleared leave
cleared_agrees s r t h naming v o found is = tt
cleared_agrees s r t h (chatting i) v o found is = through (get_elem? s.clients i)
  where
    through : (m : Option ClientInfo) → Agree none (leave r t (talker h.fd m))
    through none = tt
    through (some c) = tt
cleared_agrees s r t h (leaving i) v o found is =
    let (c, there, owner) = o.own t i h found (ap index is) in
    let free : ClientInfo = record c { socket = 0 } in
    rw (there, Agree)
      (
        Views-change s r t h finished (set s.clients i free) v
            (every-set (λ (d : ClientInfo). Closed 49 d.name × Closed 15 d.ip) s.clients i c free
              there (v.buffers i c there) v.buffers)
            (λ t' j k other old x. get_elem?-set_other s.clients i j free (λ same.
              other (o.alone t t' i h k found old (ap index is) (x ∙ ap some (sym same))))),
        refl,
      )
cleared_agrees s r t h finished v o found is = tt
