-- ===== src/Net/TcpConnection/Life.antt =====
-- The life of a connection of net/TcpConnection.cpp: its states, its channel and its descriptor.
use azh_lid.Prelude.{
  ℕ, suc, ◌+◌, ◌≡◌, ◌≢◌, inl, inr, refl, sym, subst, Bool, true, false, Option, none, some, List,
  [], ◌∷◌, ◌++◌, arith, Bool-cases, ℤ, negsuc, is_negative,
}
use azh_lid.Net.TcpConnection.{
  State, connecting, connected, disconnecting, disconnected, Interest, Effect, registers, connects,
  delivers, closes, shuts_write, closes_fd, Connection, Callbacks, note, invoke, register,
  set_writing, is_state_connected, is_state_disconnecting, drop_channel, no_interest, close_fd,
  finish_write, shut_after, shut_if_disconnecting,
}

-- How often the close callback is called, and how often the descriptor is closed.
abbrev pub notices : List Effect → ℕ
notices [] = 0
notices (closes ∷ l) = suc (notices l)
notices (registers i ∷ l) = notices l
notices (connects ∷ l) = notices l
notices (delivers ∷ l) = notices l
notices (shuts_write fd ∷ l) = notices l
notices (closes_fd fd ∷ l) = notices l

abbrev pub closings : List Effect → ℕ
closings [] = 0
closings (closes_fd fd ∷ l) = suc (closings l)
closings (registers i ∷ l) = closings l
closings (connects ∷ l) = closings l
closings (delivers ∷ l) = closings l
closings (shuts_write fd ∷ l) = closings l
closings (closes ∷ l) = closings l

pub notices-append : (xs ys : List Effect) → notices (xs ++ ys) ≡ notices xs + notices ys
notices-append [] ys = omega arith
notices-append (closes ∷ xs) ys = omega (arith, notices-append xs ys)
notices-append (registers i ∷ xs) ys = notices-append xs ys
notices-append (connects ∷ xs) ys = notices-append xs ys
notices-append (delivers ∷ xs) ys = notices-append xs ys
notices-append (shuts_write fd ∷ xs) ys = notices-append xs ys
notices-append (closes_fd fd ∷ xs) ys = notices-append xs ys

pub closings-append : (xs ys : List Effect) → closings (xs ++ ys) ≡ closings xs + closings ys
closings-append [] ys = omega arith
closings-append (closes_fd fd ∷ xs) ys = omega (arith, closings-append xs ys)
closings-append (registers i ∷ xs) ys = closings-append xs ys
closings-append (connects ∷ xs) ys = closings-append xs ys
closings-append (delivers ∷ xs) ys = closings-append xs ys
closings-append (shuts_write fd ∷ xs) ys = closings-append xs ys
closings-append (closes ∷ xs) ys = closings-append xs ys

-- No close callback and no close of the descriptor yet.
pub record IsUnclosed (l : List Effect) : Type 0 where
  pub no_notice : notices l ≡ 0
  pub no_closing : closings l ≡ 0

-- What holds of the channel, the descriptor and the log in each state, between two handlers.
abbrev pub LifeAt : State → Option Interest → ℤ → List Effect → Type 0
LifeAt connecting ch fd l = (ch ≡ none) × (is_negative fd ≡ false) × IsUnclosed l
LifeAt connected ch fd l = (ch ≢ none) × (is_negative fd ≡ false) × IsUnclosed l
LifeAt disconnecting ch fd l = (ch ≢ none) × (is_negative fd ≡ false) × IsUnclosed l
LifeAt disconnected ch fd l = (ch ≡ none) × (fd ≡ negsuc 0) × (notices l ≡ 1) × (closings l ≡ 1)

-- A connection that is open has a channel and a descriptor and has closed nothing; one that is
-- disconnected has neither, and has called the close callback and closed the descriptor once each.
abbrev pub IsLiving : Connection → Type 0
IsLiving c = LifeAt c.state c.channel c.connfd c.log

-- What the callbacks may do: keep a connection living, and leave one that is being closed alone.
pub record IsTame (cbs : Callbacks) : Type 0 where
  pub connected_tame : (c : Connection) → IsLiving c → IsLiving (invoke cbs.connected_cb c)
  pub message_tame : (c : Connection) → IsLiving c → IsLiving (invoke cbs.message_cb c)
  pub close_tame :
      (c : Connection)
      → c.state ≡ disconnected
      → let c' = invoke cbs.close_cb c in
        (c'.state ≡ c.state) × (c'.channel ≡ c.channel) × (c'.connfd ≡ c.connfd) × (c'.log ≡ c.log)

-- The result of a handler that does not crash.
abbrev pub Living? : Option Connection → Type 0
Living? none = Unit
Living? (some c) = IsLiving c

-- An effect that closes nothing.
abbrev pub IsHarmless : Effect → Type 0
IsHarmless e = (notices (e ∷ []) ≡ 0) × (closings (e ∷ []) ≡ 0)

-- A harmless effect in any state.
pub note-LifeAt :
    (s : State) (ch : Option Interest) (fd : ℤ) (l : List Effect) (e : Effect)
    → IsHarmless e
    → LifeAt s ch fd l
    → LifeAt s ch fd (l ++ e ∷ [])
note-LifeAt connecting ch fd l e h (a, b, u) = (
  a,
  b,
  omega (arith, notices-append l (e ∷ []), closings-append l (e ∷ []), u.no_notice, u.no_closing),
)
note-LifeAt connected ch fd l e h (a, b, u) = (
  a,
  b,
  omega (arith, notices-append l (e ∷ []), closings-append l (e ∷ []), u.no_notice, u.no_closing),
)
note-LifeAt disconnecting ch fd l e h (a, b, u) = (
  a,
  b,
  omega (arith, notices-append l (e ∷ []), closings-append l (e ∷ []), u.no_notice, u.no_closing),
)
note-LifeAt disconnected ch fd l e h (a, b, n, m) =
    (a, b, omega (arith, notices-append l (e ∷ [])), omega (arith, closings-append l (e ∷ [])))

pub connected_of : (s : State) → is_state_connected s ≡ true → s ≡ connected
unfolding is_state_connected
connected_of s h = ground arith

-- `enable_write` and `disable_write` on the channel of a living connection.
pub set_writing-Living :
    (on : Bool) (c : Connection) (o : Option Interest)
    → c.channel ≡ o
    → IsLiving c
    → Living? (set_writing on o c)
unfolding set_writing register
set_writing-Living on c none e v = tt
set_writing-Living on c (some i) e v =
    note-LifeAt c.state (some (record i { writing = on })) c.connfd c.log
      (registers (record i { writing = on })) (refl, refl) (replaced c.state v)
  where
    replaced :
        (s : State)
        → LifeAt s c.channel c.connfd c.log
        → LifeAt s (some (record i { writing = on })) c.connfd c.log
    replaced connecting w = absurd (ground (arith, w.0))
    replaced connected w = (λ h. cc, w.1, w.2)
    replaced disconnecting w = (λ h. cc, w.1, w.2)
    replaced disconnected w = absurd (ground (arith, w.0))

-- The first half of a close: the channel is dropped and the close callback is due.
pub dropped :
    (c : Connection) (o : Option Interest)
    → o ≢ none
    → IsUnclosed c.log
    → let d = note closes (drop_channel o (record c { state = disconnected })) in
      (d.state ≡ disconnected) × (d.channel ≡ none) × (notices d.log ≡ 1) × (closings d.log ≡ 0)
unfolding drop_channel
dropped c none h u = absurd (h refl)
dropped c (some i) h u = (
  refl,
  refl,
  omega (
    arith,
    notices-append (c.log ++ registers no_interest ∷ []) (closes ∷ []),
    notices-append c.log (registers no_interest ∷ []),
    u.no_notice,
  ),
  omega (
    arith,
    closings-append (c.log ++ registers no_interest ∷ []) (closes ∷ []),
    closings-append c.log (registers no_interest ∷ []),
    u.no_closing,
  ),
)

-- The second half: the descriptor is closed.
pub closed :
    (c : Connection)
    → c.state ≡ disconnected
    → c.channel ≡ none
    → notices c.log ≡ 1
    → closings c.log ≡ 0
    → IsLiving (close_fd c)
unfolding close_fd
closed c s ch n m =
    subst (λ t. LifeAt t c.channel (negsuc 0) (c.log ++ closes_fd c.connfd ∷ [])) (sym s)
      (
        ch,
        refl,
        omega (arith, notices-append c.log (closes_fd c.connfd ∷ [])),
        omega (arith, closings-append c.log (closes_fd c.connfd ∷ [])),
      )

shut_after-Living : (o : Option Connection) → Living? o → Living? (shut_after o)
unfolding shut_after shut_if_disconnecting
shut_after-Living none v = tt
shut_after-Living (some d) v = elim (Bool-cases (is_state_disconnecting d.state)) [
  | inl t ↦
      rw t (note-LifeAt d.state d.channel d.connfd d.log (shuts_write d.connfd) (refl, refl) v)
  | inr t ↦ rw t v
]

pub finish_write-Living : (c : Connection) → IsLiving c → Living? (finish_write c)
unfolding finish_write
finish_write-Living c v = shut_after-Living _ (set_writing-Living false c c.channel refl v)
