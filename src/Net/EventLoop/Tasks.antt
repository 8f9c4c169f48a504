-- ===== src/Net/EventLoop/Tasks.antt =====
-- The queue of tasks of net/EventLoop.cpp.
use azh_lid.Prelude.{
  ℕ, ◌≡◌, refl, sym, ap, ◌∙◌, Bool, true, false, Option, none, some, List, [], ◌∷◌, ◌++◌,
  if◌then◌else◌, ℤ, Map, lookup, erase, int_eq,
}
use mathlib.Core.List.{append-nil, append_assoc}
use azh_lid.Net.EventLoop.{
  Kernel, Channel, Act, enables_read, enables_write, disables_write, disables_all, removes,
  destroys, EventLoop, has_none, channel_at, del, add_result, watch_more, update_channel,
  remove_channel, set_channel, act, act_all, reacts, run_in_loop, run_each, do_pending_functors,
}

module _ {S : Type 0} (k : Kernel S) where
  -- What acts on channels leave alone.
  module _ {ℓ} {B : Type ℓ} (f : EventLoop S → B)
      (same : (l : EventLoop S) (e : S) (m : Map ℤ ℕ)
        → f (record l { epoller = e; channels = m }) ≡ f l) where
    pub update_channel-field : (c : ℕ) (l : EventLoop S) → f (update_channel k c l) ≡ f l
    unfolding update_channel del watch_more add_result
    update_channel-field c l =
        either (has_none (channel_at k c l).events) (lookup (channel_at k c l).fd l.channels)
      where
        ch : Channel
        ch = channel_at k c l

        added : (r : Bool × S) → f (add_result k ch.fd c r l) ≡ f l
        added (true, e) = same l e _
        added (false, e) = same l e l.channels

        either :
            (b : Bool) (o : Option ℕ)
            → f (
                if b
                then record (del k ch.fd l) { channels = erase ch.fd l.channels }
                else watch_more k c ch o l)
              ≡ f l
        either true o = same l _ _
        either false none = added (k.ctl_add ch.fd ch.events c l.epoller)
        either false (some c') = same l _ l.channels

  module _ {ℓ} {B : Type ℓ} (f : EventLoop S → B)
      (same : (l : EventLoop S) (e : S) (m : Map ℤ ℕ) (os : List Channel)
        → f (record l { epoller = e; channels = m; objects = os }) ≡ f l) where
    act-field : (a : Act) (l : EventLoop S) → f (act k a l) ≡ f l
    unfolding act set_channel remove_channel del
    act-field (enables_read c) l =
        update_channel-field f (λ n e m. same n e m n.objects) c _ ∙ same l l.epoller l.channels _
    act-field (enables_write c) l =
        update_channel-field f (λ n e m. same n e m n.objects) c _ ∙ same l l.epoller l.channels _
    act-field (disables_write c) l =
        update_channel-field f (λ n e m. same n e m n.objects) c _ ∙ same l l.epoller l.channels _
    act-field (disables_all c) l =
        update_channel-field f (λ n e m. same n e m n.objects) c _ ∙ same l l.epoller l.channels _
    act-field (removes c) l = same l _ _ l.objects
    act-field (destroys c) l = same l l.epoller l.channels _

    pub act_all-field : (acts : List Act) (l : EventLoop S) → f (act_all k acts l) ≡ f l
    unfolding act_all
    act_all-field [] l = refl
    act_all-field (a ∷ acts) l = act_all-field acts (act k a l) ∙ act-field a l

  module _ (on_event : ℕ → ℕ → List Act × List ℕ) (on_task : ℕ → List Act × List ℕ) where
    -- The tasks that the given ones queue when they run.
    pub queued_by : List ℕ → List ℕ
    queued_by [] = []
    queued_by (task ∷ tasks) = (on_task task).1 ++ queued_by tasks

    run_each-lists :
        (tasks : List ℕ) (l : EventLoop S)
        → let l' = run_each k on_event on_task tasks l in
          (l'.ran ≡ l.ran ++ tasks) × (l'.pending_functors ≡ l.pending_functors ++ queued_by tasks)
    unfolding run_each run_in_loop reacts queued_by
    run_each-lists [] l = (sym (append-nil l.ran), sym (append-nil l.pending_functors))
    run_each-lists (task ∷ tasks) l =
        let (ran, pending) = run_each-lists tasks (run_in_loop k on_event on_task true task l) in
        (
          ran
              ∙ ap (λ (r : List ℕ). r ++ tasks)
                  (act_all-field (λ (n : EventLoop S). n.ran) (λ n e m os. refl) (on_task task).0 _)
              ∙ append_assoc l.ran (task ∷ []) tasks,
          pending
              ∙ ap (λ (r : List ℕ). (r ++ (on_task task).1) ++ queued_by tasks)
                  (act_all-field (λ (n : EventLoop S). n.pending_functors) (λ n e m os. refl)
                    (on_task task).0 _)
              ∙ append_assoc l.pending_functors (on_task task).1 (queued_by tasks),
        )

    -- do_pending_functors runs the tasks that were queued before it, each once and in order, and
    -- leaves in the queue exactly those that they have queued, in order.
    pub do_pending_functors_lem :
        (l : EventLoop S)
        → let l' = do_pending_functors k on_event on_task l in
          (l'.ran ≡ l.ran ++ l.pending_functors)
          × (l'.pending_functors ≡ queued_by l.pending_functors)
    unfolding do_pending_functors
    do_pending_functors_lem l =
        run_each-lists l.pending_functors (record l { pending_functors = [] })
