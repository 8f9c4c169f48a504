-- ===== src/Net/EventLoop/Tests.antt =====
-- Runs of net/EventLoop.cpp on a kernel that keeps its interest list as a table.
use azh_lid.Prelude.{
  ℕ, zero, suc, ◌≡◌, inl, inr, refl, ap, ◌∙◌, true, false, Option, none, some, List, [], ◌∷◌, ◌++◌,
  arith, if◌then◌else◌, not, Bool-cases, ℤ, pos, Map, lookup, insert, erase, get_or, is_some,
  int_eq, int_beq, int_beq_iff, lookup-insert, lookup-erase,
}
use azh_lid.Net.TcpConnection.{Interest}
use azh_lid.Net.EventLoop.{
  Kernel, Channel, Act, disables_all, destroys, EventLoop, no_channel, reacts, do_pending_functors,
  handle_event, found, dispatch, turn, turns, run_each, run_in_loop, loop, set_channel, with_events,
  act, act_all, update_channel, watch_more, add_result, del,
}
use azh_lid.Net.EventLoop.Watched.{Obeys, InStep}
use azh_lid.Net.EventLoop.Tasks.{queued_by, do_pending_functors_lem}
use azh_lid.Net.EventLoop.Dispatch.{loop-InStep}

abbrev Listed : Type 0
Listed = Map ℤ (Interest × ℕ)

abbrev table_kernel : Kernel Listed
table_kernel = record {
  ctl_add = λ fd e p s.
      (not (is_some (lookup fd s)), if is_some (lookup fd s) then s else insert fd (e, p) s);
  ctl_mod =
      λ fd e p s. (is_some (lookup fd s), if is_some (lookup fd s) then insert fd (e, p) s else s);
  ctl_del = λ fd s. (is_some (lookup fd s), erase fd s);
}

abbrev listed : Listed → ℤ → Option (Interest × ℕ)
listed s j = lookup j s

table_kernel-Obeys : Obeys table_kernel listed
table_kernel-Obeys = record {
  adds = λ fd e p s j. elim (Bool-cases (is_some (lookup fd s))) [
    | inl old ↦ rw old refl
    | inr new ↦ rw new (lookup-insert j fd (e, p) s)
  ];
  mods = λ fd e p s j. elim (Bool-cases (is_some (lookup fd s))) [
    | inl old ↦ rw old (lookup-insert j fd (e, p) s)
    | inr new ↦ rw new refl
  ];
  mods_old = λ fd e p s h. h;
  dels = λ fd s j. lookup-erase j fd s;
}

-- Two channels that read, on the descriptors 4 and 5.
abbrev reader : ℤ → Channel
reader fd = record {
  fd = fd;
  events = record { reading = true; writing = false };
  alive = true;
  has_cb = true;
  tied = false;
  tie_alive = false;
}

abbrev watching : EventLoop Listed
watching = record {
  epoller =
      (pos 4, (record { reading = true; writing = false }, 0))
      ∷ (pos 5, (record { reading = true; writing = false }, 1))
      ∷ [];
  channels = (pos 4, 0) ∷ (pos 5, 1) ∷ [];
  objects = reader (pos 4) ∷ reader (pos 5) ∷ [];
  running = false;
  pending_functors = 20 ∷ 21 ∷ [];
  handled = [];
  ran = [];
}

-- Each event takes its channel out of the loop, and task 20 queues task 30.
abbrev leaves : ℕ → ℕ → List Act × List ℕ
leaves c revents = (disables_all c ∷ [], [])

abbrev queues : ℕ → List Act × List ℕ
queues zero = ([], [])
queues (suc n) = ([], 30 ∷ [])

do_pending_functors_lem_example :
    ((do_pending_functors table_kernel leaves queues watching).ran ≡ [] ++ 20 ∷ 21 ∷ [])
    × ((do_pending_functors table_kernel leaves queues watching).pending_functors
        ≡ queued_by table_kernel leaves queues (20 ∷ 21 ∷ []))
do_pending_functors_lem_example = do_pending_functors_lem table_kernel leaves queues watching

abbrev polls : List (List (ℕ × ℕ))
polls = ((0, 1) ∷ (1, 1) ∷ []) ∷ []

after_loop : EventLoop Listed
after_loop = elim (loop table_kernel leaves queues polls watching) [ none ↦ watching | some l ↦ l ]

run_returns : loop table_kernel leaves queues polls watching ≡ some after_loop
unfolding after_loop loop turns turn do_pending_functors run_each run_in_loop dispatch found
    handle_event reacts act act_all set_channel with_events update_channel del watch_more add_result
    lookup insert erase
run_returns = refl

pointer_of :
    {m n : Interest} {p c : ℕ} → ◌≡◌ {A = Option (Interest × ℕ)} (some (m, p)) (some (n, c)) → p ≡ c
pointer_of {p = p} h = ap (λ (o : Option (Interest × ℕ)). elim o [ none ↦ p | some x ↦ x.1 ]) h

watching-InStep : InStep table_kernel listed watching
unfolding lookup
watching-InStep = (
  (λ j. ground arith),
  λ j m p h. elim (Bool-cases (int_beq (pos 4) j)) [
    | inl four ↦
        ap (λ (i : ℕ). (get_or watching.objects i no_channel).fd)
          (pointer_of {m = m} {n = record { reading = true; writing = false }} {p = p} {c = 0}
            (ground (arith, h, four)))
        ∙ (int_beq_iff (pos 4) j).0 four
    | inr other ↦ elim (Bool-cases (int_beq (pos 5) j)) [
      | inl five ↦
          ap (λ (i : ℕ). (get_or watching.objects i no_channel).fd)
            (pointer_of {m = m} {n = record { reading = true; writing = false }} {p = p} {c = 1}
              (ground (arith, h, other, five)))
          ∙ (int_beq_iff (pos 5) j).0 five
      | inr neither ↦ absurd (ground (arith, h, other, neither))
    ]
  ],
)

loop-InStep_example : InStep table_kernel listed after_loop
loop-InStep_example =
    loop-InStep table_kernel listed table_kernel-Obeys leaves queues polls watching after_loop
      run_returns watching-InStep

-- A callback that destroys a channel which has an event in the same batch: the loop reads it afterwards.
abbrev destroys_next : ℕ → ℕ → List Act × List ℕ
destroys_next c revents = (disables_all (suc c) ∷ destroys (suc c) ∷ [], [])

reads_gone : dispatch table_kernel destroys_next queues ((0, 1) ∷ (1, 1) ∷ []) watching ≡ none
unfolding dispatch found handle_event reacts act_all act set_channel with_events update_channel del
    watch_more add_result lookup insert erase
reads_gone = refl
