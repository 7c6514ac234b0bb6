-- ===== src/Server/Listener.antt =====
-- The listening socket of `HttpServer` in src/main.cpp: `tcp`, `uds`, `start_tcp`, `start_uds`,
-- `cleanup_uds` and the destructor. The answers of the operating system are a record.
pub mod Closing
pub mod Tests
use lswasm.Base.{ℕ, ◌-◌, ◌%◌, ◌^◌, Bool, true, false, not, Option, none, some, List, [], ◌∷◌}
use lswasm.Base.{leb, if◌then◌else◌}
use lswasm.Base.{length, is_empty}
use lswasm.Base.{Bytes}
use lswasm.CommandLine.{ℤ, pos, negsuc}

-- The calls on the operating system, those that only read or set an option left out.
pub data ListenerCall : Type 0 where
  opens closes listens : ℕ → ListenerCall
  binds_port binds_path : ℕ → ListenerCall
  unlinks : Bytes → ListenerCall
  changes_mode : ℕ → ListenerCall

-- What the operating system answers: the socket, and whether each call succeeds.
pub record OsAnswers : Type 0 where
  pub socket : Option ℕ
  pub option_set : Bool
  pub directories : Bool
  pub bound : Bool
  pub mode_changed : Bool
  pub listening : Bool

-- The fields of `HttpServer` that change, with `g_server_socket` and `g_uds_path`; the calls made, the
-- newest first.
pub record Listener : Type 0 where
  pub server_socket : Option ℕ
  pub uds_path : Bytes
  pub sock_perm : ℕ
  pub global_socket : Option ℕ
  pub global_path : Bytes
  pub calls : List ListenerCall

-- `HttpServer::tcp` and `HttpServer::uds`; the path is empty for TCP.
unfoldable pub new_listener : Bytes → ℕ → Listener
new_listener path perm = record {
  server_socket = none;
  uds_path = path;
  sock_perm = perm;
  global_socket = none;
  global_path = [];
  calls = [];
}

-- `htons(port_)`: the port modulo 2 ^ 16.
unfoldable pub to_port : ℤ → ℕ
to_port (pos n) = n % 2 ^ 16
to_port (negsuc n) = 2 ^ 16 - 1 - n % 2 ^ 16

-- `sizeof(sun_path)`
abbrev pub sun_path_size : ℕ
sun_path_size = 108

abbrev pub called : Listener → ListenerCall → Listener
called s c = record s { calls = c ∷ s.calls }

-- `close(server_socket_)`, which leaves the field as it is.
abbrev pub give_up : Listener → ℕ → Bool × Listener
give_up s fd = (false, called s (closes fd))

abbrev opened_socket : Listener → ℕ → Listener
opened_socket s fd = called (record s { server_socket = some fd }) (opens fd)

-- `cleanup_uds`
unfoldable pub cleanup_uds : Listener → Listener
cleanup_uds s = if is_empty s.uds_path then s else called s (unlinks s.uds_path)

-- The end of `start_tcp`, and of `start_uds`.
abbrev pub listen_tcp : Listener → ℕ → Bool → Bool × Listener
listen_tcp s fd listening =
    if listening
    then (true, called (record s { global_socket = some fd }) (listens fd))
    else give_up s fd

abbrev pub listen_uds : Listener → ℕ → Bool → Bool × Listener
unfolding cleanup_uds
listen_uds s fd listening =
    if listening
    then (
      true,
      called (record s { global_socket = some fd; global_path = s.uds_path }) (listens fd),
    )
    else (false, cleanup_uds (called s (closes fd)))

-- `start_tcp` with its socket.
unfoldable pub start_tcp_with : Listener → ℤ → OsAnswers → ℕ → Bool × Listener
unfolding to_port
start_tcp_with s port a fd =
    let s₁ = opened_socket s fd in
    if not a.option_set
    then give_up s₁ fd
    else if not a.bound
    then give_up s₁ fd
    else listen_tcp (called s₁ (binds_port (to_port port))) fd a.listening

-- `start_tcp`
unfoldable pub start_tcp : Listener → ℤ → OsAnswers → Bool × Listener
unfolding start_tcp_with
start_tcp s port a = elim a.socket [ none ↦ (false, s) | some fd ↦ start_tcp_with s port a fd ]

-- `start_uds` with its socket; `directories` is also true where the path has no parent.
unfoldable pub start_uds_with : Listener → OsAnswers → ℕ → Bool × Listener
unfolding cleanup_uds listen_uds
start_uds_with s a fd =
    let s₁ = opened_socket s fd in
    let s₂ = called s₁ (unlinks s.uds_path) in
    let s₃ = called s₂ (binds_path fd) in
    let s₄ = called s₃ (changes_mode s.sock_perm) in
    if not a.directories
    then give_up s₁ fd
    else if leb sun_path_size (length s.uds_path)
    then give_up s₂ fd
    else if not a.bound
    then give_up s₂ fd
    else if not a.mode_changed
    then (false, cleanup_uds (called s₃ (closes fd)))
    else listen_uds s₄ fd a.listening

-- `start_uds`
unfoldable pub start_uds : Listener → OsAnswers → Bool × Listener
unfolding start_uds_with
start_uds s a = elim a.socket [ none ↦ (false, s) | some fd ↦ start_uds_with s a fd ]

abbrev pub close_socket : Option ℕ → Listener → Listener
close_socket none s = s
close_socket (some fd) s = called s (closes fd)

-- The destructor.
unfoldable pub destroy_listener : Listener → Listener
unfolding cleanup_uds
destroy_listener s = cleanup_uds (close_socket s.server_socket s)
