-- ===== src/Net/Acceptor/Registered.antt =====
-- Which connections of net/Acceptor.cpp come into the server's table.
use azh_lid.Prelude.{
  ℕ, suc, ◌≡◌, refl, ap, ◌∙◌, Option, some, List, [], ◌∷◌, ◌++◌, arith, if◌then◌else◌, ◌&&◌, not,
  ltb, ℤ, pos, length, get_or, length-append, lookup, is_some, int_eq, int_beq,
}
use azh_lid.Net.TcpServer.{TcpServer, get_next_loop_or_base}
use azh_lid.Net.TcpServer.Register.{lookup-add_new_tcp_conn}
use azh_lid.Net.TcpServer.Turns.{next_loops, get_next_loop_or_base-field}
use azh_lid.Net.Acceptor.{
  Accept, accepts, interrupted, would_block, out_of_files, fails, Conn, no_conn, Accepting,
  run_in_loop, take_conn, turn_away, do_accept, world,
}
use azh_lid.Net.Acceptor.Loops.{
  accepted, placed, elsewhere, on_base, run_in_loop-field, take_conn-conns, do_accept-turns,
}

-- What stands at a descriptor after connections with the given ones, numbered from `i`, where `o` stood
-- before: the first of them takes the place if it is free.
abbrev pub registered : ℤ → ℕ → List ℕ → Option ℕ → Option ℕ
registered k i [] o = o
registered k i (fd ∷ fds) o =
    registered k (suc i) fds
      (if ltb 0 fd && int_beq (pos fd) k && not (is_some o) then some i else o)

get_or-last : (conns : List Conn) (c : Conn) → get_or (conns ++ c ∷ []) (length conns) no_conn ≡ c
get_or-last [] c = refl
get_or-last (d ∷ conns) c = get_or-last conns c

lookup-take_conn :
    (fd now later made : ℕ) (a : Accepting) (k : ℤ)
    → lookup k (take_conn fd now later made a).server.connections ≡ (
        if ltb 0 fd && int_beq (pos fd) k && not (is_some (lookup k a.server.connections))
        then some (length a.conns)
        else lookup k a.server.connections)
unfolding take_conn
lookup-take_conn fd now later made a k =
    lookup-add_new_tcp_conn (world (a.conns ++ c ∷ [])) now later made (length a.conns) _ k
    ∙ rw (get_or-last a.conns c) (rw same refl)
  where
    c : Conn
    c = record { fd = pos fd; loop = (get_next_loop_or_base a.server).0 }

    start : Accepting
    start = record a { server = (get_next_loop_or_base a.server).1; conns = a.conns ++ c ∷ [] }

    same :
        (run_in_loop (get_next_loop_or_base a.server).0 (length a.conns) start).server.connections
        ≡ a.server.connections
    same =
        run_in_loop-field (λ (s : TcpServer). s.connections) (λ s told. refl) _ (length a.conns)
          start
        ∙ get_next_loop_or_base-field (λ (s : TcpServer). s.connections) (λ s p. refl) a.server

length-take_conn :
    (fd now later made : ℕ) (a : Accepting)
    → length (take_conn fd now later made a).conns ≡ suc (length a.conns)
length-take_conn fd now later made a =
    ap length (take_conn-conns fd now later made a) ∙ length-append a.conns _ ∙ omega arith

lookup-do_accept :
    (answers : List Accept) (a : Accepting) (k : ℤ)
    → lookup k (do_accept answers a).server.connections
      ≡ registered k (length a.conns) (accepted answers) (lookup k a.server.connections)
unfolding do_accept turn_away
lookup-do_accept [] a k = refl
lookup-do_accept (accepts fd now later made ∷ answers) a k =
    lookup-do_accept answers (take_conn fd now later made a) k
    ∙ rw (lookup-take_conn fd now later made a k) (rw (length-take_conn fd now later made a) refl)
lookup-do_accept (interrupted ∷ answers) a k = lookup-do_accept answers a k
lookup-do_accept (would_block ∷ answers) a k = refl
lookup-do_accept (out_of_files tmp reopened ∷ answers) a k =
    lookup-do_accept answers (turn_away tmp reopened a) k
lookup-do_accept (fails ∷ answers) a k = refl

-- Whatever accept answers, the loop over it makes a connection of each descriptor that it gets
-- before it ends, in order, on the loops that the server hands out in turn (the base loop where
-- the pool has no threads); connect_established runs at once for those on the base loop and is
-- queued once for each other one on its loop, in order; and afterwards the server's table has at
-- each positive descriptor what it had before, or else the first new connection with that
-- descriptor.
pub do_accept_lem :
    (answers : List Accept) (a : Accepting)
    → let a' = do_accept answers a in
      let fds = accepted answers in
      let loops = next_loops (length fds) a.server in
      (a'.conns ≡ a.conns ++ placed fds loops)
      × (a'.queued ≡ a.queued ++ elsewhere a.server.base_loop (length a.conns) loops)
      × (a'.established ≡ a.established ++ on_base a.server.base_loop (length a.conns) loops)
      × ((k : ℤ)
          → lookup k a'.server.connections
            ≡ registered k (length a.conns) fds (lookup k a.server.connections))
do_accept_lem answers a =
    let (conns, queued, established) = do_accept-turns answers a in
    (conns, queued, established, lookup-do_accept answers a)
