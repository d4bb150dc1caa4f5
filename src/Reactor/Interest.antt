-- ===== src/Reactor/Interest.antt =====
-- The interest list of the epoll instance against the channels (src/reactor/epoller.cpp,
-- src/reactor/event_loop.cpp).
use chatroom_server.Prelude.{
  ℕ, ◌≡◌, refl, ap, List, [], ◌∷◌, Option-cases, inl, inr, if◌then◌else◌, ◌==◌, arith,
}
use chatroom_server.Reactor.Fds.{get, put, erase, get-put, get-erase, found}
use chatroom_server.Reactor.Channel.{Channel, Events}
use chatroom_server.Reactor.EventLoop.{
  Epoller, EventLoop, add_fd, del_fd, close_fd, add_channel, remove_channel, delete_all, quit,
}

-- The kernel watches the descriptors that have a channel, and the member `fdEventsMap_` is the
-- interest list.
pub record Mirrored {ℓ} {C : Type ℓ} (l : EventLoop C) : Type 0 where
  pub interest_eq : (fd : ℕ) → found (get fd l.epoller.interest) ≡ found (get fd l.channels)
  pub map_eq : l.epoller.fd_events_map ≡ l.epoller.interest

get-add_fd :
    (fd j : ℕ) (events : Events) (e : Epoller)
    → found (get j (add_fd fd events e).1.interest)
      ≡ (if fd == j then 1 else found (get j e.interest))
unfolding add_fd
get-add_fd fd j events e = elim (Option-cases (get fd e.interest)) [
  | inl q ↦ rw q (ground (arith, get-put fd j events e.interest))
  | inr (v, q) ↦ rw q (ground (arith, q))
]

get-del_fd :
    (fd j : ℕ) (e : Epoller)
    → found (get j (del_fd fd e).1.interest) ≡ (if fd == j then 0 else found (get j e.interest))
unfolding del_fd
get-del_fd fd j e = elim (Option-cases (get fd e.interest)) [
  | inl q ↦ rw q (ground (arith, q))
  | inr (v, q) ↦ rw q (ground (arith, get-erase fd j e.interest))
]

map-add_fd :
    (fd : ℕ) (events : Events) (e : Epoller)
    → e.fd_events_map ≡ e.interest
    → (add_fd fd events e).1.fd_events_map ≡ (add_fd fd events e).1.interest
unfolding add_fd
map-add_fd fd events e h = elim (Option-cases (get fd e.interest)) [
  | inl q ↦ rw q (ap (put fd events) h)
  | inr (v, q) ↦ rw q h
]

map-del_fd :
    (fd : ℕ) (e : Epoller)
    → e.fd_events_map ≡ e.interest
    → (del_fd fd e).1.fd_events_map ≡ (del_fd fd e).1.interest
unfolding del_fd
map-del_fd fd e h = elim (Option-cases (get fd e.interest)) [
  | inl q ↦ rw q h
  | inr (v, q) ↦ rw q (ap (erase fd) h)
]

-- A map without a key that is found is empty.
get-none {ℓ} : {V : Type ℓ} (m : List (ℕ × V)) → ((j : ℕ) → found (get j m) ≡ 0) → m ≡ []
unfolding get
get-none [] h = refl
get-none ((k, v) ∷ m) h = ground (arith, h k)

module _ {ℓ} {C : Type ℓ} where
  pub add_channel-Mirrored :
      (c : Channel C) (l : EventLoop C) → Mirrored l → Mirrored (add_channel c l)
  unfolding add_channel
  add_channel-Mirrored c l h = record {
    interest_eq = λ j.
        ground (
          arith,
          get-add_fd c.fd j c.events l.epoller,
          get-put c.fd j c l.channels,
          h.interest_eq j,
        );
    map_eq = map-add_fd c.fd c.events l.epoller h.map_eq;
  }

  pub remove_channel-Mirrored :
      (fd : ℕ) (l : EventLoop C) → Mirrored l → Mirrored (remove_channel fd l)
  unfolding remove_channel
  remove_channel-Mirrored fd l h = record {
    interest_eq =
        λ j. ground (arith, get-del_fd fd j l.epoller, get-erase fd j l.channels, h.interest_eq j);
    map_eq = map-del_fd fd l.epoller h.map_eq;
  }

  get-delete_all :
      (cs : List (ℕ × Channel C)) (e : Epoller) (j : ℕ)
      → found (get j (delete_all cs e).interest)
        ≡ (if found (get j cs) == 0 then found (get j e.interest) else 0)
  unfolding delete_all get
  get-delete_all [] e j = refl
  get-delete_all ((fd, c) ∷ cs) e j =
      ground (arith, get-delete_all cs (del_fd fd e).1 j, get-del_fd fd j e)

  -- The listener's descriptor may have been closed before.
  pub quit-interest :
      (l : EventLoop C) (fd : ℕ)
      → Mirrored l
      → ((quit l).epoller.interest ≡ [])
        × ((quit (record l { epoller = close_fd fd l.epoller })).epoller.interest ≡ [])
  unfolding quit close_fd
  quit-interest l fd h = (
    get-none (delete_all l.channels l.epoller).interest
        (λ j. ground (arith, get-delete_all l.channels l.epoller j, h.interest_eq j)),
    get-none (delete_all l.channels (close_fd fd l.epoller)).interest (λ j. ground (
      arith,
      get-delete_all l.channels (close_fd fd l.epoller) j,
      get-erase fd j l.epoller.interest,
      h.interest_eq j,
    )),
  )
