-- ===== src/Logger/Writer/Shutdown.antt =====
-- What logger/logger.cpp writes before it shuts down.
use azh_lid.Prelude.{
  ℕ, zero, suc, ◌<◌, ◌≡◌, refl, sym, ap, ◌∙◌, subst, Bool, true, false, Option, none, some, List,
  [], ◌∷◌, ◌++◌, arith, ◌==◌, if◌then◌else◌, length, take, pos,
}
use mathlib.Core.List.{append-nil, append_assoc}
use azh_lid.Logger.LogQueue.{LogQueue, pop}
use azh_lid.Logger.LogQueue.Valid.{IsValid}
use azh_lid.Logger.LogQueue.Refine.{queued, length-span, Takes, pop_refines}
use azh_lid.Logger.Writer.{
  Line, Env, Logger, files_of, close_file, create_new_log_file, need_new_file, put_line,
  after_create, sync_write, popped, take_one, drain, shutdown,
}

abbrev pub concat : List (List Line) → List Line
concat [] = []
concat (lines ∷ files) = lines ++ concat files

-- All that the files hold, oldest first.
abbrev pub written : Logger → List Line
written l = concat l.closed ++ concat (files_of l.file)

-- The records of a list have bytes.
abbrev pub AllNonempty : List Line → Type 0
AllNonempty [] = Unit
AllNonempty (line ∷ lines) = (0 < length line) × AllNonempty lines

concat-append : (xs ys : List (List Line)) → concat (xs ++ ys) ≡ concat xs ++ concat ys
concat-append [] ys = refl
concat-append (x ∷ xs) ys =
    ap (λ (l : List Line). x ++ l) (concat-append xs ys)
    ∙ sym (append_assoc x (concat xs) (concat ys))

-- A new file opens and is empty, and records are written whole.
abbrev pub Works : Env → Type 0
Works e = (e.opens ≡ true) × (e.existing ≡ []) × ((n : ℕ) → e.fwrite n ≡ n)

take_all : (xs : Line) → take (length xs) xs ≡ xs
take_all [] = refl
take_all (x ∷ xs) = ap (λ (l : Line). x ∷ l) (take_all xs)

-- A record that goes to the open file.
abbrev Writes : Line → Logger → Logger → Type 0
Writes line l l' =
    (written l' ≡ written l ++ line ∷ []) × (l'.out ≡ l.out) × (l'.log_queue ≡ l.log_queue)

sync_write-Writes :
    (e : Env) (line : Line) (l : Logger)
    → Works e
    → 0 < length line
    → Writes line l (sync_write e line l)
unfolding sync_write create_new_log_file need_new_file after_create put_line close_file
sync_write-Writes e line l (opens, fresh, whole) some_bytes =
    not_empty (length line == 0) (ground (arith, some_bytes))
  where
    with_file : Option (List Line) → Logger
    with_file o = record l { file = o }

    all_of : take (e.fwrite (length line)) line ≡ line
    all_of = ap (λ (n : ℕ). take n line) (whole (length line)) ∙ take_all line

    in_new_file : (m : Logger) → Writes line m (after_create e line (create_new_log_file e m))
    in_new_file m =
        rw (opens, fresh, all_of)
          (
            ap (λ (lines : List Line). lines ++ line ∷ [])
                (concat-append m.closed (files_of m.file)),
            refl,
            refl,
          )

    in_old_file :
        (lines : List Line)
        → Writes line
            (with_file (some lines))
            (put_line e line (some lines) (with_file (some lines)))
    in_old_file lines = rw all_of (
      ap (λ (r : List Line). concat l.closed ++ r) (append-nil (lines ++ line ∷ []))
          ∙ ap (λ (r : List Line). concat l.closed ++ (r ++ line ∷ [])) (sym (append-nil lines))
          ∙ sym (append_assoc (concat l.closed) (lines ++ []) (line ∷ [])),
      refl,
      refl,
    )

    either :
        (b : Bool) (lines : List Line)
        → let m = with_file (some lines) in
          Writes line m (
            if b
            then after_create e line (create_new_log_file e m)
            else put_line e line (some lines) m)
    either true lines = in_new_file (with_file (some lines))
    either false lines = in_old_file lines

    go :
        (o : Option (List Line))
        → let m = with_file o in
          Writes line m (
            if need_new_file e m o
            then after_create e line (create_new_log_file e m)
            else put_line e line o m)
    go none = in_new_file (with_file none)
    go (some lines) = either (need_new_file e l (some lines)) lines

    not_empty :
        (b : Bool)
        → b ≡ false
        → Writes line l (
            if b
            then l
            else if need_new_file e l l.file
            then after_create e line (create_new_log_file e l)
            else put_line e line l.file l)
    not_empty true h = absurd (ground (arith, h))
    not_empty false h = go l.file

-- The thread's last records, from a well-formed queue.
drain-Drains :
    (envs : ℕ → Env) (n : ℕ) (q : LogQueue Line) (l : Logger)
    → ((i : ℕ) → Works (envs i))
    → IsValid q
    → length (queued [] q) ≡ n
    → AllNonempty (queued [] q)
    → l.log_queue ≡ some q
    → (written (drain envs n l) ≡ written l ++ queued [] q) × ((drain envs n l).out ≡ l.out)
unfolding drain take_one popped
drain-Drains envs zero q l works v h full at = (
  sym (append-nil (written l))
      ∙ ap (λ (r : List Line). written l ++ r) (sym (length_zero (queued [] q) h)),
  refl,
)
  where
    length_zero : (lines : List Line) → length lines ≡ 0 → lines ≡ []
    length_zero [] e = refl
    length_zero (x ∷ lines) e = absurd (omega arith)
drain-Drains envs (suc n) q l works v h full at =
    subst (λ (o : Option (LogQueue Line)). Result (drain envs n (take_one (envs n) (pos 0) o l)))
      (sym at)
      (go (pop [] (pos 0) q) (pop_refines [] (pos 0) q v) (λ q' m. drain-Drains envs n q' m works))
  where
    Result : Logger → Type 0
    Result l' = (written l' ≡ written l ++ queued [] q) × (l'.out ≡ l.out)

    go :
        (r : Option (Option Line × LogQueue Line))
        → Takes [] q (pos 0) r
        → ((q' : LogQueue Line) (m : Logger)
            → IsValid q'
            → length (queued [] q') ≡ n
            → AllNonempty (queued [] q')
            → m.log_queue ≡ some q'
            → (written (drain envs n m) ≡ written m ++ queued [] q')
              × ((drain envs n m).out ≡ m.out))
        → Result (drain envs n (popped (envs n) r l))
    go none (empty, _) rest = absurd (ground (arith, h, ap length empty))
    go (some (none, q')) (empty, _, _) rest = absurd (ground (arith, h, ap length empty))
    go (some (some x, q')) (v', front) rest =
        let some_full : AllNonempty (x ∷ queued [] q') = subst AllNonempty front full in
        let (now, out, queue) =
          sync_write-Writes (envs n) x (record l { log_queue = some q' }) (works n) some_full.0 in
        let (later, out') =
          rest q' (sync_write (envs n) x (record l { log_queue = some q' })) v'
            (omega (arith, h, ap length front)) some_full.1 queue in
        (
          later
              ∙ ap (λ (r : List Line). r ++ queued [] q') now
              ∙ append_assoc (written l) (x ∷ []) (queued [] q')
              ∙ ap (λ (r : List Line). written l ++ r) (sym front),
          out' ∙ out,
        )

-- If new files open and are empty, records are written whole, and no other thread logs, shutdown of a
-- logger that is set up and whose thread runs on a well-formed ring of records that have bytes appends
-- the queued records, oldest first, to what the files hold, sends none of them to the standard output,
-- and leaves no file open and the logger not initialized.
pub shutdown-queued :
    (envs : ℕ → Env) (q : LogQueue Line) (l : Logger)
    → ((i : ℕ) → Works (envs i))
    → IsValid q
    → AllNonempty (queued [] q)
    → l.log_queue ≡ some q
    → l.has_thread ≡ true
    → l.initialized ≡ true
    → let l' = shutdown envs l in
      (written l' ≡ written l ++ queued [] q)
      × (l'.out ≡ l.out)
      × (l'.file ≡ none)
      × (l'.initialized ≡ false)
unfolding shutdown close_file
shutdown-queued envs q l works v full at thread set_up = simp set_up (
    simp thread (
      simp at (
        append-nil _ ∙ concat-append drained.closed (files_of drained.file) ∙ all_out.0,
        all_out.1,
        refl,
        refl,
      )))
  where
    drained : Logger
    drained = drain envs q.size l

    all_out : (written drained ≡ written l ++ queued [] q) × (drained.out ≡ l.out)
    all_out =
        drain-Drains envs q.size q l works v (length-span [] q.buffer q.capacity q.front q.size)
          full at
