-- ===== src/Net/Acceptor/Loops.antt =====
-- Which loops the connections of net/Acceptor.cpp run on.
use azh_lid.Prelude.{
  ℕ, suc, ◌≡◌, refl, sym, ap, ◌∙◌, Bool, true, false, Option, List, [], ◌∷◌, ◌++◌, ◌==◌,
  if◌then◌else◌, arith, ℤ, pos, length, length-append, Map,
}
use mathlib.Core.List.{append-nil, append_assoc}
use azh_lid.Time.ConnectionTimeoutManager.{Manager}
use azh_lid.Net.TcpServer.{Told, TcpServer, get_next_loop_or_base, ts_connected_cb}
use azh_lid.Net.TcpServer.Register.{add_new_tcp_conn-field}
use azh_lid.Net.TcpServer.Turns.{
  next_loops, next_loops_zero, next_loops-suc, get_next_loop_or_base-field,
}
use azh_lid.Net.Acceptor.{
  Accept, accepts, interrupted, would_block, out_of_files, fails, Conn, Accepting, run_in_loop,
  take_conn, turn_away, do_accept,
}

-- The descriptors that are accepted until the loop ends.
abbrev pub accepted : List Accept → List ℕ
accepted [] = []
accepted (accepts fd now later made ∷ answers) = fd ∷ accepted answers
accepted (interrupted ∷ answers) = accepted answers
accepted (would_block ∷ answers) = []
accepted (out_of_files tmp reopened ∷ answers) = accepted answers
accepted (fails ∷ answers) = []

abbrev pub placed : List ℕ → List ℕ → List Conn
placed (fd ∷ fds) (loop ∷ loops) = record { fd = pos fd; loop = loop } ∷ placed fds loops
placed fds [] = []
placed [] (loop ∷ loops) = []

-- The connections, numbered from `i` in the order of their loops, that are not on the base loop, each
-- with its loop, and those that are.
abbrev pub elsewhere : ℕ → ℕ → List ℕ → List (ℕ × ℕ)
elsewhere base i [] = []
elsewhere base i (loop ∷ loops) =
    let rest = elsewhere base (suc i) loops in if loop == base then rest else (loop, i) ∷ rest

abbrev pub on_base : ℕ → ℕ → List ℕ → List ℕ
on_base base i [] = []
on_base base i (loop ∷ loops) =
    let rest = on_base base (suc i) loops in if loop == base then i ∷ rest else rest

-- What the call of connect_established leaves alone.
pub run_in_loop-field {ℓ} :
    {B : Type ℓ} (g : TcpServer → B)
    → ((s : TcpServer) (told : List Told) → g (record s { told = told }) ≡ g s)
    → (loop conn : ℕ) (a : Accepting) → g (run_in_loop loop conn a).server ≡ g a.server
unfolding run_in_loop ts_connected_cb
run_in_loop-field g same loop conn a = either (loop == a.server.base_loop)
  where
    either :
        (b : Bool)
        → g
            (if b
              then record a {
                server = ts_connected_cb conn a.server;
                established = a.established ++ conn ∷ [];
              }
              else record a { queued = a.queued ++ (loop, conn) ∷ [] }).server
          ≡ g a.server
    either true = same a.server _
    either false = refl

module _ (fd now later made : ℕ) (a : Accepting) where
  abbrev loop : ℕ
  loop = (get_next_loop_or_base a.server).0

  take_conn-server {ℓ} :
      {B : Type ℓ} (g : TcpServer → B)
      → ((s : TcpServer) (o : Option Manager) → g (record s { idle_manager = o }) ≡ g s)
      → ((s : TcpServer) (table : Map ℤ ℕ) → g (record s { connections = table }) ≡ g s)
      → ((s : TcpServer) (told : List Told) → g (record s { told = told }) ≡ g s)
      → g (take_conn fd now later made a).server ≡ g (get_next_loop_or_base a.server).1
  unfolding take_conn
  take_conn-server g manager table told =
      add_new_tcp_conn-field g manager table _ now later made _ _
      ∙ run_in_loop-field g told loop (length a.conns) _

  take_conn-next_loops :
      (n : ℕ)
      → next_loops (suc n) a.server ≡ loop ∷ next_loops n (take_conn fd now later made a).server
  take_conn-next_loops n =
      next_loops-suc n a.server
      ∙ ap (λ (l : List ℕ). loop ∷ l)
          (sym (take_conn-server (next_loops n) (λ s o. refl) (λ s table. refl) (λ s told. refl)))

  take_conn-base_loop : (take_conn fd now later made a).server.base_loop ≡ a.server.base_loop
  take_conn-base_loop =
      take_conn-server (λ (s : TcpServer). s.base_loop) (λ s o. refl) (λ s table. refl)
        (λ s told. refl)
      ∙ get_next_loop_or_base-field (λ (s : TcpServer). s.base_loop) (λ s p. refl) a.server

  -- Where connect_established of the new connection goes.
  pub take_conn-conns :
      (take_conn fd now later made a).conns ≡ a.conns ++ record { fd = pos fd; loop = loop } ∷ []
  unfolding take_conn run_in_loop
  take_conn-conns = either (loop == (get_next_loop_or_base a.server).1.base_loop)
    where
      start : Accepting
      start = record a {
        server = (get_next_loop_or_base a.server).1;
        conns = a.conns ++ record { fd = pos fd; loop = loop } ∷ [];
      }

      either :
          (b : Bool)
          → (if b
              then record start {
                server = ts_connected_cb (length a.conns) start.server;
                established = a.established ++ length a.conns ∷ [];
              }
              else record start { queued = a.queued ++ (loop, length a.conns) ∷ [] }).conns
            ≡ start.conns
      either true = refl
      either false = refl

  take_conn-calls :
      ((take_conn fd now later made a).queued
        ≡ a.queued ++ elsewhere a.server.base_loop (length a.conns) (loop ∷ []))
      × ((take_conn fd now later made a).established
          ≡ a.established ++ on_base a.server.base_loop (length a.conns) (loop ∷ []))
  unfolding take_conn run_in_loop
  take_conn-calls =
      rw (get_next_loop_or_base-field (λ (s : TcpServer). s.base_loop) (λ s p. refl) a.server)
        (either (loop == a.server.base_loop))
    where
      start : Accepting
      start = record a {
        server = (get_next_loop_or_base a.server).1;
        conns = a.conns ++ record { fd = pos fd; loop = loop } ∷ [];
      }

      either :
          (b : Bool)
          → let a' =
              if b
              then record start {
                server = ts_connected_cb (length a.conns) start.server;
                established = a.established ++ length a.conns ∷ [];
              }
              else record start { queued = a.queued ++ (loop, length a.conns) ∷ [] } in
            (a'.queued ≡ a.queued ++ (if b then [] else (loop, length a.conns) ∷ []))
            × (a'.established ≡ a.established ++ (if b then length a.conns ∷ [] else []))
      either true = (sym (append-nil a.queued), refl)
      either false = (refl, sym (append-nil a.established))

elsewhere-cons :
    (base i loop : ℕ) (loops : List ℕ)
    → elsewhere base i (loop ∷ []) ++ elsewhere base (suc i) loops ≡ elsewhere base i (loop ∷ loops)
elsewhere-cons base i loop loops = either (loop == base)
  where
    either :
        (b : Bool)
        → let rest = elsewhere base (suc i) loops in
          (if b then [] else (loop, i) ∷ []) ++ rest ≡ (if b then rest else (loop, i) ∷ rest)
    either true = refl
    either false = refl

on_base-cons :
    (base i loop : ℕ) (loops : List ℕ)
    → on_base base i (loop ∷ []) ++ on_base base (suc i) loops ≡ on_base base i (loop ∷ loops)
on_base-cons base i loop loops = either (loop == base)
  where
    either :
        (b : Bool)
        → let rest = on_base base (suc i) loops in
          (if b then i ∷ [] else []) ++ rest ≡ (if b then i ∷ rest else rest)
    either true = refl
    either false = refl

abbrev pub Accepts : List ℕ → List ℕ → Accepting → Accepting → Type 0
Accepts fds loops a a' =
    (a'.conns ≡ a.conns ++ placed fds loops)
    × (a'.queued ≡ a.queued ++ elsewhere a.server.base_loop (length a.conns) loops)
    × (a'.established ≡ a.established ++ on_base a.server.base_loop (length a.conns) loops)

nothing_more : (a : Accepting) → Accepts [] (next_loops 0 a.server) a a
nothing_more a =
    rw (next_loops_zero a.server)
      (sym (append-nil a.conns), sym (append-nil a.queued), sym (append-nil a.established))

pub do_accept-turns :
    (answers : List Accept) (a : Accepting)
    → Accepts
        (accepted answers)
        (next_loops (length (accepted answers)) a.server)
        a
        (do_accept answers a)
unfolding do_accept turn_away
do_accept-turns [] a = nothing_more a
do_accept-turns (accepts fd now later made ∷ answers) a =
    let a' = take_conn fd now later made a in
    let loops = next_loops (length (accepted answers)) a'.server in
    let base = a.server.base_loop in
    let (conns, queued, established) = do_accept-turns answers a' in
    let more : length a'.conns ≡ suc (length a.conns) =
      ap length (take_conn-conns fd now later made a) ∙ length-append a.conns _ ∙ omega arith in
    let (calls, runs) = take_conn-calls fd now later made a in
    rw (take_conn-next_loops fd now later made a (length (accepted answers))) (
      conns
          ∙ ap (λ (l : List Conn). l ++ placed (accepted answers) loops)
              (take_conn-conns fd now later made a)
          ∙ append_assoc a.conns _ _,
      queued
          ∙ ap (λ (b : ℕ). a'.queued ++ elsewhere b (length a'.conns) loops)
              (take_conn-base_loop fd now later made a)
          ∙ ap (λ (k : ℕ). a'.queued ++ elsewhere base k loops) more
          ∙ ap (λ (l : List (ℕ × ℕ)). l ++ elsewhere base (suc (length a.conns)) loops) calls
          ∙ append_assoc a.queued _ _
          ∙ ap (λ (l : List (ℕ × ℕ)). a.queued ++ l)
              (elsewhere-cons base (length a.conns) (loop fd now later made a) loops),
      established
          ∙ ap (λ (b : ℕ). a'.established ++ on_base b (length a'.conns) loops)
              (take_conn-base_loop fd now later made a)
          ∙ ap (λ (k : ℕ). a'.established ++ on_base base k loops) more
          ∙ ap (λ (l : List ℕ). l ++ on_base base (suc (length a.conns)) loops) runs
          ∙ append_assoc a.established _ _
          ∙ ap (λ (l : List ℕ). a.established ++ l)
              (on_base-cons base (length a.conns) (loop fd now later made a) loops),
    )
do_accept-turns (interrupted ∷ answers) a = do_accept-turns answers a
do_accept-turns (would_block ∷ answers) a = nothing_more a
do_accept-turns (out_of_files tmp reopened ∷ answers) a =
    do_accept-turns answers (turn_away tmp reopened a)
do_accept-turns (fails ∷ answers) a = nothing_more a
