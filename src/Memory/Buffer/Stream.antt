-- ===== src/Memory/Buffer/Stream.antt =====
-- An OutputBuffer of memory/data_buf.cpp over a sequence of calls of write_to_buf and write_to_fd.
use azh_lid.Prelude.{
  ℕ, zero, suc, ◌≡◌, ◌⊎◌, inl, inr, refl, sym, ap, ◌∙◌, Option, none, some, List, [], ◌∷◌, ◌++◌,
  ◌==◌, if◌then◌else◌, Bool-cases, ==_iff, take, drop, ℤ, pos, is_negative,
}
use mathlib.Core.List.{append_assoc}
use mathlib.Core.Option
use azh_lid.Memory.Chunk.{Chunk}
use azh_lid.Memory.Buffer.{Env, Buffer, WriteAnswer, write_to_buf, write_to_fd, write_chunk}
use azh_lid.Memory.Buffer.Room.{IsKeeping, IsSound, pending}
use azh_lid.Memory.Buffer.Output.{source, Writes, write_to_buf_lem}
use azh_lid.Memory.Buffer.Drain.{IsWriting, Sends, IsAtFront, accepted, write_to_fd_lem}

-- A call of `write_to_buf` with its bytes and length, and one of `write_to_fd` on an open descriptor.
pub data Call : Type 0 where
  puts : Env → List ℕ → ℤ → Call
  drains : (List ℕ → WriteAnswer) → ℕ → Call

-- A buffer, the bytes that `write_to_buf` has taken with result 0, and those that the kernel took.
pub record Stream : Type 0 where
  pub buffer : Buffer
  pub written : List ℕ
  pub sent : List ℕ

pub put : List ℕ → Stream → ℤ × Buffer → Stream
put bytes s (n, b) = record s {
  buffer = b;
  written = (if is_negative n then s.written else s.written ++ bytes);
}

pub sent_on : ℕ → Stream → ℤ × Buffer → Stream
sent_on k s (n, b) = record s { buffer = b; sent = s.sent ++ take k (pending s.buffer.data_buf) }

-- `none`: `write_to_fd` fails its assertion.
pub call : Call → Stream → Option Stream
call (puts env bytes len) s =
    some (put (source (some bytes) len) s (write_to_buf env (some bytes) len s.buffer))
call (drains kernel fd) s =
    Option.map (sent_on (accepted kernel (pos fd) s.buffer.data_buf) s)
      (write_to_fd kernel (pos fd) s.buffer)

pub calls : List Call → Stream → Option Stream
calls [] s = some s
calls (c ∷ cs) s = Option.bind (call c s) (calls cs)

-- The environment of the calls: other threads keep the pool well-formed, and `write` takes at most
-- what it is given.
abbrev pub IsFair : List Call → Type 0
IsFair [] = Unit
IsFair (puts env bytes len ∷ cs) = IsKeeping env × IsFair cs
IsFair (drains kernel fd ∷ cs) = IsWriting kernel × IsFair cs

-- The bytes written are those sent, followed by those in the buffer.
pub record IsFlowing (s : Stream) : Type 0 where
  pub sound : IsSound s.buffer
  pub order : s.written ≡ s.sent ++ pending s.buffer.data_buf

take-append-drop : (n : ℕ) (xs : List ℕ) → xs ≡ take n xs ++ drop n xs
take-append-drop zero xs = refl
take-append-drop (suc n) [] = refl
take-append-drop (suc n) (x ∷ xs) = ap (λ (ys : List ℕ). x ∷ ys) (take-append-drop n xs)

put-IsFlowing :
    (bytes : List ℕ) (s : Stream) (r : ℤ × Buffer)
    → IsFlowing s
    → Writes (pending s.buffer.data_buf) bytes r
    → IsFlowing (put bytes s r)
unfolding put
put-IsFlowing bytes s (n, b) v (sound, inl (zero_result, kept)) = rw zero_result (record {
  sound = sound;
  order = rw (kept, v.order) (append_assoc s.sent (pending s.buffer.data_buf) bytes);
})
put-IsFlowing bytes s (n, b) v (sound, inr (failed_result, kept)) =
    rw failed_result (record { sound = sound; order = rw kept v.order })

sent_on-IsFlowing :
    (k : ℕ) (s : Stream) (r : ℤ × Buffer)
    → IsFlowing s
    → Sends (pending s.buffer.data_buf) k r
    → IsFlowing (sent_on k s r)
unfolding sent_on
sent_on-IsFlowing k s (n, b) v (sound, left, _) = record {
  sound = sound;
  order =
      v.order
      ∙ ap (λ (xs : List ℕ). s.sent ++ xs) (take-append-drop k (pending s.buffer.data_buf))
      ∙ sym (
          append_assoc s.sent (take k (pending s.buffer.data_buf))
            (drop k (pending s.buffer.data_buf)))
      ∙ ap (λ (xs : List ℕ). (s.sent ++ take k (pending s.buffer.data_buf)) ++ xs) (sym left);
}

-- A buffer whose live bytes do not start at index 0 fails the assertion.
front_cases :
    (kernel : List ℕ → WriteAnswer) (b : Buffer) (o : Option Chunk)
    → IsAtFront o ⊎ (write_chunk kernel b o ≡ none)
unfolding write_chunk
front_cases kernel b none = inl tt
front_cases kernel b (some c) = elim (Bool-cases (c.length == 0)) [
  | inl t ↦ inl (inl ((==_iff c.length 0).0 t))
  | inr t ↦ elim (Bool-cases (c.head == 0)) [
    | inl u ↦ inl (inr ((==_iff c.head 0).0 u))
    | inr u ↦ inr (rw (t, u) refl)
  ]
]

abbrev pub Flowing? : Option Stream → Type 0
Flowing? none = Unit
Flowing? (some s) = IsFlowing s

drains-Flowing :
    (kernel : List ℕ → WriteAnswer) (fd : ℕ) (s : Stream)
    → IsWriting kernel
    → IsFlowing s
    → Flowing? (call (drains kernel fd) s)
unfolding call write_to_fd
drains-Flowing kernel fd s w v = elim (front_cases kernel s.buffer s.buffer.data_buf) [
  | inl front ↦
      (let (r, e, sends) = write_to_fd_lem kernel w (pos fd) s.buffer v.sound front in
        rw e (sent_on-IsFlowing _ s r v sends))
  | inr crash ↦ rw crash tt
]

call-Flowing :
    (c : Call) (cs : List Call) (s : Stream) → IsFair (c ∷ cs) → IsFlowing s → Flowing? (call c s)
unfolding call
call-Flowing (puts env bytes len) cs s (keeps, _) v =
    put-IsFlowing _ s _ v (write_to_buf_lem env keeps (some bytes) len s.buffer v.sound)
call-Flowing (drains kernel fd) cs s (w, _) v = drains-Flowing kernel fd s w v

IsFair-tail : (c : Call) (cs : List Call) → IsFair (c ∷ cs) → IsFair cs
IsFair-tail (puts env bytes len) cs (_, f) = f
IsFair-tail (drains kernel fd) cs (_, f) = f

-- Over any sequence of write_to_buf and write_to_fd calls in a fair environment that does not fail
-- the assertion, if the bytes written with result 0 were those the kernel took, in order, followed
-- by those in the buffer, then they are so at the end.
pub calls-Flowing : (cs : List Call) (s : Stream) → IsFair cs → IsFlowing s → Flowing? (calls cs s)
unfolding calls Option.bind
calls-Flowing [] s f v = v
calls-Flowing (c ∷ cs) s f v =
    resume (call c s) (call-Flowing c cs s f v) (λ t. calls-Flowing cs t (IsFair-tail c cs f))
  where
    resume :
        (o : Option Stream)
        → Flowing? o
        → ((t : Stream) → IsFlowing t → Flowing? (calls cs t))
        → Flowing? (Option.bind o (calls cs))
    resume none w rest = tt
    resume (some t) w rest = rest t w
