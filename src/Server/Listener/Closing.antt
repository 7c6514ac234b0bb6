-- ===== src/Server/Listener/Closing.antt =====
-- How often the listening socket is closed.
use lswasm.Base.{ℕ, suc, ◌+◌, ◌≡◌, refl, ◌∙◌, Bool, false, not, Option, some, List, [], ◌∷◌, arith}
use lswasm.Base.{leb, ◌==◌, if◌then◌else◌, if_cases}
use lswasm.Base.{length, is_empty}
use lswasm.Base.{Bytes}
use lswasm.CommandLine.{ℤ}
use lswasm.Server.Listener.{
  ListenerCall, closes, OsAnswers, Listener, new_listener, cleanup_uds, start_tcp_with, start_tcp,
  start_uds_with, start_uds, destroy_listener, listen_uds, close_socket,
}

abbrev pub closings : ℕ → List ListenerCall → ℕ
closings fd [] = 0
closings fd (closes d ∷ l) = (if fd == d then 1 else 0) + closings fd l
closings fd (c ∷ l) = closings fd l

-- After a start with the socket `fd`: how often it was closed.
pub record IsStarted (fd : ℕ) (p : Bool × Listener) : Type 0 where
  pub held : p.1.server_socket ≡ some fd
  pub closed : closings fd p.1.calls ≡ (if p.0 then 0 else 1)

closings-cleanup_uds :
    (fd : ℕ) (s : Listener) → closings fd (cleanup_uds s).calls ≡ closings fd s.calls
unfolding cleanup_uds
closings-cleanup_uds fd s =
    if_cases (λ (t : Listener). closings fd t.calls ≡ closings fd s.calls) (is_empty s.uds_path) _ _
      (λ e. refl) (λ e. refl)

cleanup_uds_socket : (s : Listener) → (cleanup_uds s).server_socket ≡ s.server_socket
unfolding cleanup_uds
cleanup_uds_socket s =
    if_cases (λ (t : Listener). t.server_socket ≡ s.server_socket) (is_empty s.uds_path) _ _
      (λ e. refl) (λ e. refl)

closings-closes :
    (fd : ℕ) (l : List ListenerCall) → closings fd (closes fd ∷ l) ≡ suc (closings fd l)
closings-closes fd l = ground arith

-- A start that gives up has closed its socket once.
given_up-IsStarted :
    (fd : ℕ) (s : Listener)
    → s.server_socket ≡ some fd
    → closings fd s.calls ≡ 0
    → IsStarted fd (false, record s { calls = closes fd ∷ s.calls })
given_up-IsStarted fd s e h = record {
  held = e;
  closed = omega (arith, closings-closes fd s.calls, h);
}

cleaned_up-IsStarted :
    (fd : ℕ) (s : Listener)
    → s.server_socket ≡ some fd
    → closings fd s.calls ≡ 0
    → IsStarted fd (false, cleanup_uds (record s { calls = closes fd ∷ s.calls }))
cleaned_up-IsStarted fd s e h =
    let t = record s { calls = closes fd ∷ s.calls } in
    record {
      held = cleanup_uds_socket t ∙ e;
      closed = omega (arith, closings-cleanup_uds fd t, closings-closes fd s.calls, h);
    }

start_tcp-IsStarted :
    (port : ℤ) (a : OsAnswers) (path : Bytes) (perm fd : ℕ)
    → IsStarted fd (start_tcp_with (new_listener path perm) port a fd)
unfolding start_tcp_with new_listener
start_tcp-IsStarted port a path perm fd =
    let other = if_cases (IsStarted fd) in
    other (not a.option_set) _ _ (λ e. given_up-IsStarted fd _ refl refl)
      λ e.
        other (not a.bound) _ _ (λ e. given_up-IsStarted fd _ refl refl)
          λ e.
            other a.listening _ _ (λ e. record { held = refl; closed = refl })
              (λ e. given_up-IsStarted fd _ refl refl)

start_uds-IsStarted :
    (a : OsAnswers) (path : Bytes) (perm fd : ℕ)
    → IsStarted fd (start_uds_with (new_listener path perm) a fd)
unfolding start_uds_with new_listener listen_uds
start_uds-IsStarted a path perm fd =
    let other = if_cases (IsStarted fd) in
    other (not a.directories) _ _ (λ e. given_up-IsStarted fd _ refl refl)
      λ e.
        other (leb 108 (length path)) _ _ (λ e. given_up-IsStarted fd _ refl refl)
          λ e.
            other (not a.bound) _ _ (λ e. given_up-IsStarted fd _ refl refl)
              λ e.
                other (not a.mode_changed) _ _ (λ e. cleaned_up-IsStarted fd _ refl refl)
                  λ e.
                    other a.listening _ _ (λ e. record { held = refl; closed = refl })
                      (λ e. cleaned_up-IsStarted fd _ refl refl)

closings-close_socket :
    (fd : ℕ) (o : Option ℕ) (s : Listener)
    → o ≡ some fd
    → closings fd (close_socket o s).calls ≡ suc (closings fd s.calls)
closings-close_socket fd o s e = rw e (closings-closes fd s.calls)

closings-destroy_listener :
    (fd : ℕ) (p : Bool × Listener)
    → IsStarted fd p
    → closings fd (destroy_listener p.1).calls ≡ (if p.0 then 1 else 2)
unfolding destroy_listener
closings-destroy_listener fd p v =
    let s = p.1 in
    let same = closings-cleanup_uds fd (close_socket s.server_socket s) in
    let one = closings-close_socket fd s.server_socket s v.held in
    ground (arith, same, one, v.closed)

-- A server that was started and is destroyed has closed its listening socket once if the start
-- succeeded; if the start failed after the socket was made, twice, since the failing branches close it
-- and the destructor finds it still in the field.
pub closings-new_listener :
    (port : ℤ) (a : OsAnswers) (path : Bytes) (perm fd : ℕ)
    → a.socket ≡ some fd
    → (closings fd (destroy_listener (start_tcp (new_listener path perm) port a).1).calls
        ≡ (if (start_tcp (new_listener path perm) port a).0 then 1 else 2))
      × (closings fd (destroy_listener (start_uds (new_listener path perm) a).1).calls
          ≡ (if (start_uds (new_listener path perm) a).0 then 1 else 2))
unfolding start_tcp start_uds
closings-new_listener port a path perm fd e = rw e (
  closings-destroy_listener fd _ (start_tcp-IsStarted port a path perm fd),
  closings-destroy_listener fd _ (start_uds-IsStarted a path perm fd),
)
