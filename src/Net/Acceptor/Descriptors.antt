-- ===== src/Net/Acceptor/Descriptors.antt =====
-- What becomes of the descriptors that net/Acceptor.cpp gets from the kernel.
use azh_lid.Prelude.{
  ℕ, ◌+◌, ◌≡◌, refl, ap, ◌∙◌, Bool, true, false, if◌then◌else◌, ◌==◌, length, Option, none, some,
  List, [], ◌∷◌, ◌++◌, arith, pos, pos_part,
}
use azh_lid.Time.ConnectionTimeoutManager.Valid.{times, times-append}
use azh_lid.Net.TcpServer.{get_next_loop_or_base, ts_connected_cb}
use azh_lid.Net.Acceptor.{
  Accept, accepts, interrupted, would_block, out_of_files, fails, Conn, Accepting, opened,
  run_in_loop, take_conn, turn_away, do_accept,
}

-- The descriptors that the kernel hands out until the loop ends.
abbrev pub obtained : List Accept → List ℕ
obtained [] = []
obtained (accepts fd now later made ∷ answers) = fd ∷ obtained answers
obtained (interrupted ∷ answers) = obtained answers
obtained (would_block ∷ answers) = []
obtained (out_of_files none none ∷ answers) = obtained answers
obtained (out_of_files none (some r) ∷ answers) = r ∷ obtained answers
obtained (out_of_files (some t) none ∷ answers) = t ∷ obtained answers
obtained (out_of_files (some t) (some r) ∷ answers) = t ∷ r ∷ obtained answers
obtained (fails ∷ answers) = []

abbrev pub conn_fds : List Conn → List ℕ
conn_fds [] = []
conn_fds (c ∷ conns) = pos_part c.fd ∷ conn_fds conns

-- How often a descriptor is the idle one, or has gone to a connection, or has been closed.
pub known : ℕ → Accepting → ℕ
unfolding opened
known d a = times d (opened a.acceptor.idle_fd) + times d (conn_fds a.conns) + times d a.closed

conn_fds-append :
    (conns : List Conn) (c : Conn)
    → conn_fds (conns ++ c ∷ []) ≡ conn_fds conns ++ pos_part c.fd ∷ []
conn_fds-append [] c = refl
conn_fds-append (d ∷ conns) c = ap (λ (l : List ℕ). pos_part d.fd ∷ l) (conn_fds-append conns c)

known-run_in_loop :
    (d loop conn : ℕ) (a : Accepting) → known d (run_in_loop loop conn a) ≡ known d a
unfolding known run_in_loop
known-run_in_loop d loop conn a = either (loop == a.server.base_loop)
  where
    either :
        (b : Bool)
        → known d (
            if b
            then record a {
              server = ts_connected_cb conn a.server;
              established = a.established ++ conn ∷ [];
            }
            else record a { queued = a.queued ++ (loop, conn) ∷ [] })
          ≡ known d a
    either true = refl
    either false = refl

known-take_conn :
    (d fd now later made : ℕ) (a : Accepting)
    → known d (take_conn fd now later made a) ≡ known d a + times d (fd ∷ [])
unfolding known take_conn
known-take_conn d fd now later made a =
    known-run_in_loop d (get_next_loop_or_base a.server).0 (length a.conns)
      (record a { server = (get_next_loop_or_base a.server).1; conns = a.conns ++ c ∷ [] })
    ∙ rw (conn_fds-append a.conns c) (omega (arith, times-append d (conn_fds a.conns) (fd ∷ [])))
  where
    c : Conn
    c = record { fd = pos fd; loop = (get_next_loop_or_base a.server).0 }

known-turn_away :
    (d : ℕ) (tmp reopened : Option ℕ) (a : Accepting)
    → known d (turn_away tmp reopened a)
      ≡ known d a + times d (opened tmp) + times d (opened reopened)
unfolding known turn_away
known-turn_away d tmp reopened a = omega (
  arith,
  times-append d (a.closed ++ opened a.acceptor.idle_fd) (opened tmp),
  times-append d a.closed (opened a.acceptor.idle_fd),
  times-append d a.closed (opened a.acceptor.idle_fd ++ opened tmp),
  times-append d (opened a.acceptor.idle_fd) (opened tmp),
)

-- Whatever accept answers, each descriptor that the kernel hands out in the loop over it becomes
-- a connection's, the idle one, or is closed, exactly as often as it is handed out, in addition
-- to what was so before.
pub known-do_accept :
    (d : ℕ) (answers : List Accept) (a : Accepting)
    → known d (do_accept answers a) ≡ known d a + times d (obtained answers)
unfolding do_accept opened
known-do_accept d [] a = omega arith
known-do_accept d (accepts fd now later made ∷ answers) a = omega (
  arith,
  known-do_accept d answers (take_conn fd now later made a),
  known-take_conn d fd now later made a,
)
known-do_accept d (interrupted ∷ answers) a = known-do_accept d answers a
known-do_accept d (would_block ∷ answers) a = omega arith
known-do_accept d (out_of_files none none ∷ answers) a =
    omega (arith, known-do_accept d answers (turn_away none none a), known-turn_away d none none a)
known-do_accept d (out_of_files none (some r) ∷ answers) a = omega (
  arith,
  known-do_accept d answers (turn_away none (some r) a),
  known-turn_away d none (some r) a,
)
known-do_accept d (out_of_files (some t) none ∷ answers) a = omega (
  arith,
  known-do_accept d answers (turn_away (some t) none a),
  known-turn_away d (some t) none a,
)
known-do_accept d (out_of_files (some t) (some r) ∷ answers) a = omega (
  arith,
  known-do_accept d answers (turn_away (some t) (some r) a),
  known-turn_away d (some t) (some r) a,
)
known-do_accept d (fails ∷ answers) a = omega arith
