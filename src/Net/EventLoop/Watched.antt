-- ===== src/Net/EventLoop/Watched.antt =====
-- The table of net/EventLoop.cpp beside the kernel's interest list.
use azh_lid.Prelude.{
  ℕ, zero, suc, ◌≡◌, inl, inr, refl, ap, ◌∙◌, Bool, true, false, Option, none, some, List, [], ◌∷◌,
  arith, ◌&&◌, if◌then◌else◌, Bool-cases, ℤ, get_or, set, Map, lookup, erase, is_some, int_eq,
  int_beq, int_beq_iff, lookup-insert, lookup-erase,
}
use azh_lid.Net.TcpConnection.{Interest}
use azh_lid.Net.EventLoop.{
  Kernel, Channel, Act, enables_read, enables_write, disables_write, disables_all, removes,
  destroys, EventLoop, has_none, no_channel, channel_at, del, add_result, watch_more,
  update_channel, remove_channel, set_channel, with_events, act, act_all,
}

-- What the manual says of epoll_ctl: a change fails where the descriptor is not watched, and after a deletion, whether it works or finds nothing, the descriptor is not watched. A call
-- that fails changes nothing.
pub record Obeys {S : Type 0} (k : Kernel S) (watched : S → ℤ → Option (Interest × ℕ))
    : Type 0 where
  pub adds :
      (fd : ℤ) (e : Interest) (p : ℕ) (s : S) (j : ℤ)
      → watched (k.ctl_add fd e p s).1 j
        ≡ (if (k.ctl_add fd e p s).0 && int_beq fd j then some (e, p) else watched s j)
  pub mods :
      (fd : ℤ) (e : Interest) (p : ℕ) (s : S) (j : ℤ)
      → watched (k.ctl_mod fd e p s).1 j
        ≡ (if (k.ctl_mod fd e p s).0 && int_beq fd j then some (e, p) else watched s j)
  pub mods_old :
      (fd : ℤ) (e : Interest) (p : ℕ) (s : S)
      → (k.ctl_mod fd e p s).0 ≡ true
      → is_some (watched s fd) ≡ true
  pub dels :
      (fd : ℤ) (s : S) (j : ℤ)
      → watched (k.ctl_del fd s).1 j ≡ (if int_beq fd j then none else watched s j)

module _ {S : Type 0} (k : Kernel S) (watched : S → ℤ → Option (Interest × ℕ)) where
  -- The kernel watches the descriptors of the table.
  abbrev pub Agrees : S → Map ℤ ℕ → Type 0
  Agrees e channels = (j : ℤ) → is_some (watched e j) ≡ is_some (lookup j channels)

  -- The pointer of a registration is a channel of its descriptor.
  abbrev pub Points : S → List Channel → Type 0
  Points e objects =
      (j : ℤ) (m : Interest) (p : ℕ)
      → watched e j ≡ some (m, p)
      → (get_or objects p no_channel).fd ≡ j

  abbrev pub InStep : EventLoop S → Type 0
  InStep l = Agrees l.epoller l.channels × Points l.epoller l.objects

  module _ (laws : Obeys k watched) where
    del-Agrees :
        (fd : ℤ) (e : S) (channels : Map ℤ ℕ)
        → Agrees e channels
        → Agrees (k.ctl_del fd e).1 (erase fd channels)
    del-Agrees fd e channels v j = ground (arith, v j, laws.dels fd e j, lookup-erase j fd channels)

    mod-Agrees :
        (fd : ℤ) (m : Interest) (c : ℕ) (e : S) (channels : Map ℤ ℕ)
        → Agrees e channels
        → Agrees (k.ctl_mod fd m c e).1 channels
    mod-Agrees fd m c e channels v j = elim (Bool-cases (int_beq fd j)) [
      | inr other ↦ ground (arith, other, v j, laws.mods fd m c e j)
      | inl same ↦ elim (Bool-cases (k.ctl_mod fd m c e).0) [
        | inr fails ↦ ground (arith, fails, v j, laws.mods fd m c e j)
        | inl works ↦ ground (
          arith,
          works,
          same,
          v j,
          laws.mods fd m c e j,
          ap (λ (i : ℤ). is_some (watched e i)) ((int_beq_iff fd j).0 same),
          laws.mods_old fd m c e works,
        )
      ]
    ]

    -- A registration of channel `c`, or none, is all that is new.
    newer-Points :
        (b : Bool) (fd : ℤ) (m : Interest) (c : ℕ) (e e' : S) (objects : List Channel)
        → ((j : ℤ) → watched e' j ≡ (if b && int_beq fd j then some (m, c) else watched e j))
        → (get_or objects c no_channel).fd ≡ fd
        → Points e objects
        → Points e' objects
    newer-Points b fd m c e e' objects new own v j n p h = elim (Bool-cases (b && int_beq fd j)) [
      | inr old ↦ v j n p (ground (arith, old, new j, h))
      | inl now ↦
          ap (λ (i : ℕ). (get_or objects i no_channel).fd)
            (ap (λ (o : Option (Interest × ℕ)). elim o [ none ↦ p | some x ↦ x.1 ])
              {x = some (n, p)} {y = some (m, c)} (ground (arith, now, new j, h)))
          ∙ own
          ∙ (int_beq_iff fd j).0 (ground (arith, now))
    ]

    del-Points :
        (fd : ℤ) (e : S) (objects : List Channel)
        → Points e objects
        → Points (k.ctl_del fd e).1 objects
    del-Points fd e objects v j m p h = elim (Bool-cases (int_beq fd j)) [
      | inl gone ↦ absurd (ground (arith, gone, h, laws.dels fd e j))
      | inr kept ↦ v j m p (ground (arith, kept, h, laws.dels fd e j))
    ]

    update_channel-InStep : (c : ℕ) (l : EventLoop S) → InStep l → InStep (update_channel k c l)
    unfolding update_channel del watch_more add_result
    update_channel-InStep c l (agrees, points) =
        either (has_none ch.events) (lookup ch.fd l.channels)
      where
        ch : Channel
        ch = channel_at k c l

        added :
            (r : Bool × S)
            → ((j : ℤ)
                → watched r.1 j
                  ≡ (if r.0 && int_beq ch.fd j then some (ch.events, c) else watched l.epoller j))
            → InStep (add_result k ch.fd c r l)
        added (true, e) h = (
          (λ j. ground (arith, agrees j, h j, lookup-insert j ch.fd c l.channels)),
          newer-Points true ch.fd ch.events c l.epoller e l.objects h refl points,
        )
        added (false, e) h = (
          (λ j. ground (arith, agrees j, h j)),
          newer-Points false ch.fd ch.events c l.epoller e l.objects h refl points,
        )

        either :
            (b : Bool) (o : Option ℕ)
            → InStep (
                if b
                then record (del k ch.fd l) { channels = erase ch.fd l.channels }
                else watch_more k c ch o l)
        either true o = (
          del-Agrees ch.fd l.epoller l.channels agrees,
          del-Points ch.fd l.epoller l.objects points,
        )
        either false none =
            added (k.ctl_add ch.fd ch.events c l.epoller) (laws.adds ch.fd ch.events c l.epoller)
        either false (some c') = (
          mod-Agrees ch.fd ch.events c l.epoller l.channels agrees,
          newer-Points (k.ctl_mod ch.fd ch.events c l.epoller).0 ch.fd ch.events c l.epoller _
              l.objects (laws.mods ch.fd ch.events c l.epoller) refl points,
        )

    remove_channel-InStep : (c : ℕ) (l : EventLoop S) → InStep l → InStep (remove_channel k c l)
    unfolding remove_channel del
    remove_channel-InStep c l (agrees, points) = (
      del-Agrees (channel_at k c l).fd l.epoller l.channels agrees,
      del-Points (channel_at k c l).fd l.epoller l.objects points,
    )

    -- A channel keeps its descriptor.
    set_channel-InStep :
        (c : ℕ) (ch : Channel) (l : EventLoop S)
        → ch.fd ≡ (channel_at k c l).fd
        → InStep l
        → InStep (set_channel k c ch l)
    unfolding set_channel
    set_channel-InStep c ch l same (agrees, points) =
        (agrees, λ j m p h. channel-set l.objects c p ch same ∙ points j m p h)
      where
        channel-set :
            (objects : List Channel) (c p : ℕ) (ch : Channel)
            → ch.fd ≡ (get_or objects c no_channel).fd
            → (get_or (set objects c ch) p no_channel).fd ≡ (get_or objects p no_channel).fd
        channel-set [] c p ch h = refl
        channel-set (x ∷ objects) zero zero ch h = h
        channel-set (x ∷ objects) zero (suc p) ch h = refl
        channel-set (x ∷ objects) (suc c) zero ch h = refl
        channel-set (x ∷ objects) (suc c) (suc p) ch h = channel-set objects c p ch h

    pub act-InStep : (a : Act) (l : EventLoop S) → InStep l → InStep (act k a l)
    unfolding act with_events
    act-InStep (enables_read c) l v = update_channel-InStep c _ (set_channel-InStep c _ l refl v)
    act-InStep (enables_write c) l v = update_channel-InStep c _ (set_channel-InStep c _ l refl v)
    act-InStep (disables_write c) l v = update_channel-InStep c _ (set_channel-InStep c _ l refl v)
    act-InStep (disables_all c) l v = update_channel-InStep c _ (set_channel-InStep c _ l refl v)
    act-InStep (removes c) l v = remove_channel-InStep c l v
    act-InStep (destroys c) l v = set_channel-InStep c _ l refl v

    pub act_all-InStep : (acts : List Act) (l : EventLoop S) → InStep l → InStep (act_all k acts l)
    unfolding act_all
    act_all-InStep [] l v = v
    act_all-InStep (a ∷ acts) l v = act_all-InStep acts (act k a l) (act-InStep a l v)
