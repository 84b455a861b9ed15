-- ===== src/Chat/Threads/Mutex.antt =====
-- `clientsMutex` in a run: who holds it.
use c_network_tools.Base.{
  ℕ, suc, ◌≤◌, ◌≡◌, ◌≢◌, refl, ap, ◌∙◌, sym, Bool, true, false, List, [], ◌∷◌, ◌++◌, Option, some,
  none, get_elem?, set, inl, inr,
}
use mathlib.Core.Path.{subst}
use mathlib.Core.Option.{some-injective, none-ne-some}
use c_network_tools.Chat.{max_clients}
use c_network_tools.Chat.Records.{get_elem?-set_same, get_elem?-set_other, get_elem?-snoc, moved_at}
use c_network_tools.Chat.Threads.{
  Place, naming, refused, finished, named, chatting, sending, ended, leaving, greeting, parting,
  heard, speaking, Thread, Broadcast,
}
use c_network_tools.Chat.Threads.View.{get_elem?-append_some}

abbrev pub is_sending : Place → Bool
is_sending naming = false
is_sending refused = false
is_sending finished = false
is_sending (named buffer) = false
is_sending (chatting i) = false
is_sending (sending i) = true
is_sending (ended i) = false
is_sending (greeting i) = false
is_sending (parting i) = false
is_sending (leaving i) = false
is_sending (heard i buffer) = false
is_sending (speaking i message) = false

-- The mutex is held over several steps by the thread in `broadcastMessage`, if there is one.
pub record Mutex (threads : List Thread) (lock : Option Broadcast) : Type 0 where
  pub held :
      (b : Broadcast)
      → lock ≡ some b
      → (h : Thread) × (i : ℕ) × (get_elem? threads b.thread ≡ some h)
        × (h.place ≡ sending i)
        × (b.next ≤ max_clients)
  pub holder :
      (t : ℕ) (h : Thread)
      → get_elem? threads t ≡ some h
      → is_sending h.place ≡ true
      → (b : Broadcast) × (lock ≡ some b) × (b.thread ≡ t)

-- Two threads of which only one is in `broadcastMessage` are not the same.
same_place : (h k : Thread) → h ≡ k → is_sending h.place ≡ false → is_sending k.place ≢ true
same_place h k e idle busy = let same = ap (λ (h : Thread). is_sending h.place) e in cc

module _ (threads : List Thread) (lock : Option Broadcast) (m : Mutex threads lock) where
  -- A thread moves on that neither was in `broadcastMessage` nor goes there.
  pub Mutex-go :
      (t : ℕ) (h : Thread) (p : Place)
      → get_elem? threads t ≡ some h
      → is_sending h.place ≡ false
      → is_sending p ≡ false
      → Mutex (set threads t (record h { place = p })) lock
  Mutex-go t h p found was goes = record {
    held = λ b e.
        let (k, i, there, is, le) = m.held b e in
        (
          k,
          i,
          get_elem?-set_other threads t b.thread _ (apart b.thread k there (ap is_sending is))
              ∙ there,
          is,
          le,
        );
    holder = λ t' k e is. elim (moved_at threads t t' h (record h { place = p }) k found e) [
      | inl (same, is_new) ↦ absurd (same_place (record h { place = p }) k is_new goes is)
      | inr (other, old) ↦ m.holder t' k old is
    ];
  }
    where
      apart :
          (t' : ℕ) (k : Thread) → get_elem? threads t' ≡ some k → is_sending k.place ≡ true → t ≢ t'
      apart t' k there is same =
          same_place h k (some-injective _ _ (sym found ∙ ap (get_elem? threads) same ∙ there)) was
            is

  pub Mutex-append : (h : Thread) → is_sending h.place ≡ false → Mutex (threads ++ h ∷ []) lock
  Mutex-append h idle = record {
    held = λ b e.
        let (k, i, there, is, le) = m.held b e in
        (k, i, get_elem?-append_some threads (h ∷ []) b.thread k there, is, le);
    holder = λ t k e is. elim (get_elem?-snoc threads h k t e) [
      | inl before ↦ m.holder t k before is
      | inr is_new ↦ absurd (same_place h k is_new idle is)
    ];
  }

  -- A thread goes into `broadcastMessage` and takes the mutex.
  pub Mutex-take :
      (t i : ℕ) (h : Thread) (b : Broadcast)
      → get_elem? threads t ≡ some h
      → lock ≡ none
      → b.thread ≡ t
      → b.next ≤ max_clients
      → Mutex (set threads t (record h { place = sending i })) (some b)
  Mutex-take t i h b found free own le =
      let new : Thread = record h { place = sending i } in
      record {
        held = λ b' e.
            let same = some-injective b b' e in
            (
              new,
              i,
              ap (λ (b : Broadcast). get_elem? (set threads t new) b.thread) (sym same)
                  ∙ ap (get_elem? (set threads t new)) own
                  ∙ get_elem?-set_same threads t h new found,
              refl,
              subst (λ (b : Broadcast). b.next ≤ max_clients) same le,
            );
        holder = λ t' k e is. elim (moved_at threads t t' h new k found e) [
          | inl (same, is_new) ↦ (b, refl, own ∙ same)
          | inr (other, old) ↦
              let (b', taken, _) = m.holder t' k old is in
              absurd (none-ne-some _ (sym free ∙ taken))
        ];
      }

  -- A thread leaves `broadcastMessage` and the mutex.
  pub Mutex-release :
      (t : ℕ) (h : Thread) (p : Place)
      → get_elem? threads t ≡ some h
      → is_sending h.place ≡ true
      → is_sending p ≡ false
      → Mutex (set threads t (record h { place = p })) none
  Mutex-release t h p found was goes = record {
    held = λ b e. absurd (none-ne-some _ e);
    holder = λ t' k e is. elim (moved_at threads t t' h (record h { place = p }) k found e) [
      | inl (same, is_new) ↦ absurd (same_place (record h { place = p }) k is_new goes is)
      | inr (other, old) ↦
          let (b, taken, own) = m.holder t h found was in
          let (b', taken', own') = m.holder t' k old is in
          let same = some-injective _ _ (sym taken ∙ taken') in
          absurd (other (sym own ∙ ap (λ (b : Broadcast). b.thread) same ∙ own'))
    ];
  }

  -- The mutex stays where it is, in the next round of its loop.
  pub Mutex-round :
      (b : Broadcast)
      → lock ≡ some b
      → suc b.next ≤ max_clients
      → Mutex threads (some (record b { next = suc b.next }))
  Mutex-round b e le = record {
    held = λ b' e'.
        let (k, i, there, is, _) = m.held b e in
        let same = some-injective _ b' e' in
        (
          k,
          i,
          ap (λ (b : Broadcast). get_elem? threads b.thread) (sym same) ∙ there,
          is,
          subst (λ (b : Broadcast). b.next ≤ max_clients) same le,
        );
    holder = λ t k found is.
        let (b', taken, own) = m.holder t k found is in
        (
          record b { next = suc b.next },
          refl,
          ap (λ (b : Broadcast). b.thread) (some-injective b b' (sym e ∙ taken)) ∙ own,
        );
  }
