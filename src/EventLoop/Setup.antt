-- ===== src/EventLoop/Setup.antt =====
-- The descriptors of `accept_connections` (src/main.cpp) that it opens before its loop and closes behind
-- it. The loop's own calls, on the descriptors of its clients, are those of EventLoop/Loop.
use lswasm.Base.{
  ℕ, ◌≡◌, refl, ◌≢◌, ◌↔◌, inl, inr, Bool, true, false, not, ◌&&◌, Option, none, some, List, [], ◌∷◌,
  ◌++◌, arith,
}
use lswasm.Base.{◌==◌, if◌then◌else◌, Option-cases}

-- The calls on descriptors, the loop's own left out: `registers` is `epoll_ctl` with EPOLL_CTL_ADD, of
-- an epoll descriptor and another one; `unblocks` is `set_nonblocking`.
pub data SetupCall : Type 0 where
  opens closes unblocks : ℕ → SetupCall
  registers : ℕ → ℕ → SetupCall

-- What the kernel answers: the two new descriptors, `none` for a call that fails, and whether the two
-- registrations succeed. `set_nonblocking` has no answer that is looked at.
pub record SetupAnswers : Type 0 where
  pub epoll_fd : Option ℕ
  pub event_fd : Option ℕ
  pub server_added : Bool
  pub event_added : Bool

-- The descriptors of the loop, `none` where the function returns before it, and the calls made.
abbrev pub SetUp : Type 0
SetUp = Option (ℕ × ℕ) × List SetupCall

-- The two `close` calls of the failures and of the end.
unfoldable pub close_both : ℕ → ℕ → List SetupCall
close_both epoll_fd event_fd = closes event_fd ∷ closes epoll_fd ∷ []

-- The registrations.
unfoldable pub register_both : ℕ → SetupAnswers → ℕ → ℕ → SetUp
unfolding close_both
register_both server_socket a epoll_fd event_fd =
    let server =
      opens epoll_fd
      ∷ opens event_fd
      ∷ unblocks server_socket
      ∷ registers epoll_fd server_socket
      ∷ [] in
    let both = server ++ (registers epoll_fd event_fd ∷ []) in
    if not a.server_added
    then (none, server ++ close_both epoll_fd event_fd)
    else if not a.event_added
    then (none, both ++ close_both epoll_fd event_fd)
    else (some (epoll_fd, event_fd), both)

-- The eventfd.
unfoldable pub create_eventfd : ℕ → SetupAnswers → ℕ → SetUp
unfolding register_both
create_eventfd server_socket a epoll_fd = elim a.event_fd [
  | none ↦ (none, opens epoll_fd ∷ closes epoll_fd ∷ [])
  | some event_fd ↦ register_both server_socket a epoll_fd event_fd
]

-- `accept_connections` before the loop.
unfoldable pub set_up : ℕ → SetupAnswers → SetUp
unfolding create_eventfd
set_up server_socket a = elim a.epoll_fd [
  | none ↦ (none, [])
  | some epoll_fd ↦ create_eventfd server_socket a epoll_fd
]

-- The end of `accept_connections`.
unfoldable pub tear_down : Option (ℕ × ℕ) → List SetupCall
unfolding close_both
tear_down none = []
tear_down (some (epoll_fd, event_fd)) = close_both epoll_fd event_fd

-- The calls before the loop and those behind it.
unfoldable pub setup_calls : ℕ → SetupAnswers → List SetupCall
unfolding set_up tear_down
setup_calls server_socket a = (set_up server_socket a).1 ++ tear_down (set_up server_socket a).0

-- The descriptors that are open, as the kernel keeps them. `none` for a call that it would refuse: on
-- a descriptor that is not open, or an opening that gives one that is.
abbrev pub holds : List ℕ → ℕ → Bool
holds [] fd = false
holds (x ∷ xs) fd = if x == fd then true else holds xs fd

abbrev pub without : List ℕ → ℕ → List ℕ
without [] fd = []
without (x ∷ xs) fd = if x == fd then xs else x ∷ without xs fd

abbrev pub obey : List ℕ → SetupCall → Option (List ℕ)
obey opened (opens fd) = if holds opened fd then none else some (fd ∷ opened)
obey opened (closes fd) = if holds opened fd then some (without opened fd) else none
obey opened (unblocks fd) = if holds opened fd then some opened else none
obey opened (registers ep fd) = if holds opened ep && holds opened fd then some opened else none

abbrev pub replay_from : Option (List ℕ) → List SetupCall → Option (List ℕ)
replay_from o [] = o
replay_from none (x ∷ xs) = none
replay_from (some opened) (x ∷ xs) = replay_from (obey opened x) xs

-- The kernel gives new descriptors.
pub record AreNew (server_socket : ℕ) (a : SetupAnswers) : Type 0 where
  pub epoll_new : (fd : ℕ) → a.epoll_fd ≡ some fd → fd ≢ server_socket
  pub event_new :
      (ep fd : ℕ) → a.epoll_fd ≡ some ep → a.event_fd ≡ some fd → (fd ≢ ep) × (fd ≢ server_socket)

register_both-replay :
    (server_socket : ℕ) (a : SetupAnswers) (ep ev : ℕ)
    → ep ≢ server_socket
    → ev ≢ ep
    → ev ≢ server_socket
    → let r = register_both server_socket a ep ev in
      replay_from (some (server_socket ∷ [])) (r.1 ++ tear_down r.0) ≡ some (server_socket ∷ [])
unfolding register_both tear_down
register_both-replay server_socket a ep ev p q r = ground arith

create_eventfd-replay :
    (server_socket : ℕ) (a : SetupAnswers) (ep : ℕ)
    → ep ≢ server_socket
    → ((ev : ℕ) → a.event_fd ≡ some ev → (ev ≢ ep) × (ev ≢ server_socket))
    → let r = create_eventfd server_socket a ep in
      replay_from (some (server_socket ∷ [])) (r.1 ++ tear_down r.0) ≡ some (server_socket ∷ [])
unfolding create_eventfd tear_down
create_eventfd-replay server_socket a ep p new = elim (Option-cases a.event_fd) [
  | inl failed ↦ rw failed (ground arith)
  | inr (ev, e) ↦ rw e (register_both-replay server_socket a ep ev p (new ev e).0 (new ev e).1)
]

replay-setup_calls :
    (server_socket : ℕ) (a : SetupAnswers)
    → AreNew server_socket a
    → replay_from (some (server_socket ∷ [])) (setup_calls server_socket a)
      ≡ some (server_socket ∷ [])
unfolding setup_calls set_up tear_down
replay-setup_calls server_socket a new = elim (Option-cases a.epoll_fd) [
  | inl failed ↦ rw failed refl
  | inr (ep, e) ↦
      rw e (
        create_eventfd-replay server_socket a ep (new.epoll_new ep e) (λ ev. new.event_new ep ev e))
]

-- The loop is entered exactly where the kernel refuses nothing.
set_up_iff :
    (server_socket : ℕ) (a : SetupAnswers) (fds : ℕ × ℕ)
    → ((set_up server_socket a).0 ≡ some fds) ↔ (
        (a.epoll_fd ≡ some fds.0)
        × (a.event_fd ≡ some fds.1)
        × (a.server_added ≡ true)
        × (a.event_added ≡ true))
unfolding set_up create_eventfd register_both
set_up_iff server_socket a fds = ground arith

-- The calls that `accept_connections` makes before its loop and behind it, without those of the loop
-- itself: whichever of the steps before the loop fails, and also where the loop is entered, each of
-- them is on a descriptor that is open then, and together they leave the listening socket open and
-- close what they opened. The loop is entered exactly if the kernel refuses nothing. It holds if the
-- kernel gives new descriptors.
pub set_up-replay :
    (server_socket : ℕ) (a : SetupAnswers)
    → AreNew server_socket a
    → (replay_from (some (server_socket ∷ [])) (setup_calls server_socket a)
        ≡ some (server_socket ∷ []))
      × ((fds : ℕ × ℕ)
          → ((set_up server_socket a).0 ≡ some fds) ↔ (
              (a.epoll_fd ≡ some fds.0)
              × (a.event_fd ≡ some fds.1)
              × (a.server_added ≡ true)
              × (a.event_added ≡ true)))
set_up-replay server_socket a new =
    (replay-setup_calls server_socket a new, set_up_iff server_socket a)
