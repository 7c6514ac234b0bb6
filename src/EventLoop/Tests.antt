-- ===== src/EventLoop/Tests.antt =====
-- Concrete runs of the event loop.
use lswasm.Base.{
  ℕ, ◌↔◌, arith, ◌<◌, ◌≡◌, refl, ◌≢◌, ◌⊎◌, inl, true, false, Option, none, some, [], ◌∷◌,
}
use lswasm.Base.{◌==◌}
use lswasm.Base.{Bytes, codes}
use lswasm.Base.{lookup}
use lswasm.ConnectionIo.{
  ConnectionIo, init, set_header_data, feed_error, write_error, body_bytes_received,
  read_body_chunk, write_data, pending_write_data,
}
use lswasm.Server.Request.{extract_content_length}
use lswasm.HttpUtils.Names.{header_name_eq}
use lswasm.EventLoop.{
  ConnCtx, recv_bytes, new_connection, update_epoll, close_conn, submits, adds, only_in, send_taken,
  erased,
}
use lswasm.EventLoop.Setup.{SetupAnswers, AreNew, setup_calls, set_up, replay_from, set_up-replay}
use lswasm.EventLoop.Handlers.{
  ClientEvent, activate, read_headers, read_bytes, readable, client_event, writable, scan,
}
use lswasm.EventLoop.Loop.{
  Loop, empty_loop, accepts, serves, stops, works_open, writes, first, Reach, here, next, sweep,
  on_accept, on_client, shut_down,
}
use lswasm.EventLoop.Runs.{IsSafe, Reach-IsSafe}
use lswasm.EventLoop.Refinement.{IsDriven, given, gone_out, turns-IsDriven}
use lswasm.EventLoop.Wakeup.{
  open-IsActive, read_body_chunk_registered, write_data_registered, gone_free,
}

-- Two pieces of a request; the second has one byte of three of the body.
abbrev first_piece : Bytes
first_piece = codes "GET / HTTP/1.1\r\nContent-Len"

abbrev second_piece : Bytes
second_piece = codes "gth: 3\r\n\r\na"

abbrev comes : Bytes → ClientEvent
comes bytes = record { broken = false; readable = some (recv_bytes bytes); writable = none }

abbrev accepted : Loop
accepted = on_accept 5 true empty_loop

abbrev half : Loop
half = on_client 5 (comes first_piece) accepted

abbrev dispatched : Loop
dispatched = on_client 5 (comes second_piece) half

dispatched-Reach : Reach dispatched
dispatched-Reach =
    next (next (next here (accepts empty_loop 5 true)) (serves accepted 5 (comes first_piece)))
      (serves half 5 (comes second_piece))

abbrev ctx_of : Option ConnCtx → ConnCtx
ctx_of none = new_connection
ctx_of (some ctx) = ctx

abbrev bridge_of : Option ConnectionIo → ConnectionIo
bridge_of none = init 0
bridge_of (some c) = c

abbrev active_ctx : ConnCtx
active_ctx = ctx_of (lookup (λ a b. a == b) 5 dispatched.connections)

abbrev bridge : ConnectionIo
bridge = bridge_of active_ctx.conn_io

dispatched_state : (active_ctx.calls ≡ submits ∷ adds only_in ∷ []) × (active_ctx.body ≡ codes "a")
unfolding on_client on_accept client_event readable read_bytes read_headers activate update_epoll
    sweep new_connection set_header_data init extract_content_length header_name_eq
    body_bytes_received
dispatched_state = (refl, refl)

read_body_chunk_registered_example : active_ctx.epoll_events.inp ≡ true
unfolding on_client on_accept client_event readable read_bytes read_headers activate update_epoll
    sweep new_connection set_header_data init extract_content_length header_name_eq
    body_bytes_received read_body_chunk
read_body_chunk_registered_example =
    read_body_chunk_registered 5 10 active_ctx bridge dispatched-Reach refl refl refl

Reach-IsSafe_example : IsSafe dispatched
Reach-IsSafe_example = Reach-IsSafe dispatched-Reach

-- The worker has written five bytes.
abbrev answering : ConnectionIo
answering = bridge_of (write_data bridge (codes "hello"))

abbrev answering_ctx : ConnCtx
answering_ctx = record active_ctx { conn_io = some answering }

abbrev answered : Loop
answered = record dispatched { connections = (5, answering_ctx) ∷ [] }

answered-Reach : Reach answered
unfolding on_client on_accept client_event readable read_bytes read_headers activate update_epoll
    sweep new_connection set_header_data init extract_content_length header_name_eq
    body_bytes_received write_data
answered-Reach = next dispatched-Reach (
    works_open dispatched answered.connections
      (first 5 active_ctx [] bridge answering [] refl (writes (codes "hello") answering refl)))

write_data_registered_example :
    (answering_ctx.epoll_events.out ≡ true) ⊎ (answering_ctx.seen < answering.signals)
unfolding on_client on_accept client_event readable read_bytes read_headers activate update_epoll
    sweep new_connection set_header_data init extract_content_length header_name_eq
    body_bytes_received write_data
write_data_registered_example =
    write_data_registered 5 (codes "more") answering_ctx answering answered-Reach refl refl
      (inl refl)

-- The loop ends.
abbrev ended : Loop
ended = shut_down answered

ended-Reach : Reach ended
ended-Reach = next answered-Reach (stops answered)

abbrev ended_ctx : ConnCtx
ended_ctx = close_conn answering_ctx

abbrev left : ConnectionIo
left = write_error (feed_error answering)

gone_free_example : (read_body_chunk left 10 ≢ none) × (write_data left (codes "more") ≢ none)
unfolding on_client on_accept client_event readable read_bytes read_headers activate update_epoll
    sweep new_connection set_header_data init extract_content_length header_name_eq
    body_bytes_received write_data shut_down close_conn
gone_free_example = gone_free 5 10 (codes "more") ended_ctx left [] [] ended-Reach refl refl

turns-IsDriven_example :
    IsDriven answering
      (given answering_ctx answering (recv_bytes (codes "bc")))
      []
      (readable 5 answering_ctx (recv_bytes (codes "bc")))
    × IsDriven answering []
        (gone_out answering (send_taken 3))
        (writable answering_ctx (send_taken 3))
    × IsDriven answering [] [] (scan answering_ctx)
    × IsDriven answering [] [] (erased (close_conn answering_ctx))
unfolding on_client on_accept client_event readable read_bytes read_headers activate update_epoll
    sweep new_connection set_header_data init extract_content_length header_name_eq
    body_bytes_received write_data pending_write_data
turns-IsDriven_example =
    turns-IsDriven 5 answering_ctx answering (recv_bytes (codes "bc")) (send_taken 3)
      (open-IsActive 5 answering_ctx answering answered-Reach refl refl) (omega arith)

-- The registration of the eventfd fails.
abbrev refusing : SetupAnswers
refusing = record { epoll_fd = some 4; event_fd = some 5; server_added = true; event_added = false }

refusing-AreNew : AreNew 3 refusing
refusing-AreNew = record { epoll_new = λ fd e. ground arith; event_new = λ ep fd e f. ground arith }

set_up-replay_example :
    (replay_from (some (3 ∷ [])) (setup_calls 3 refusing) ≡ some (3 ∷ []))
    × ((fds : ℕ × ℕ)
        → ((set_up 3 refusing).0 ≡ some fds) ↔ (
            (refusing.epoll_fd ≡ some fds.0)
            × (refusing.event_fd ≡ some fds.1)
            × (refusing.server_added ≡ true)
            × (refusing.event_added ≡ true)))
set_up-replay_example = set_up-replay 3 refusing refusing-AreNew
