-- ===== src/Time/ConnectionTimeoutManager/Scan.antt =====
-- The scan of the current slot of time/ConnectionTimeoutManager.cpp.
use azh_lid.Prelude.{
  ℕ, ◌+◌, ◌<◌, ◌≡◌, inl, inr, refl, sym, ◌∙◌, subst, false, List, [], ◌∷◌, arith, ◌==◌,
  if◌then◌else◌, Bool-cases, ==_iff, length, set, length-set, get_or-set_self, get_or-set_ne,
}
use azh_lid.Time.ConnectionTimeoutManager.{
  ConnectionEntry, entry_at, blank, scan, tick_entry, is_expired,
}
use azh_lid.Time.ConnectionTimeoutManager.Valid.{times, entry-set}

module _ (now timeout : ℕ) where
  -- Each entry of the slot stays or has expired, as often as it stood there.
  pub scan-times :
      (k : ℕ) (ids : List ℕ) (heap : List ConnectionEntry)
      → let (kept, expired, heap') = scan now timeout ids heap in
        times k kept + times k expired ≡ times k ids
  unfolding scan
  scan-times k [] heap = omega arith
  scan-times k (id ∷ ids) heap = elim (Bool-cases (is_expired now timeout (entry_at id heap))) [
    | inl t ↦ rw t (omega (arith, scan-times k ids (set heap id (tick_entry (entry_at id heap)))))
    | inr t ↦ rw t (omega (arith, scan-times k ids (set heap id (tick_entry (entry_at id heap)))))
  ]

  -- What a tick leaves alone.
  pub scan-field {ℓ} :
      {B : Type ℓ} (f : ConnectionEntry → B)
      → ((e : ConnectionEntry) → f (tick_entry e) ≡ f e)
      → (k : ℕ) (ids : List ℕ) (heap : List ConnectionEntry)
      → f (entry_at k (scan now timeout ids heap).2) ≡ f (entry_at k heap)
  unfolding scan
  scan-field f same k [] heap = refl
  scan-field f same k (id ∷ ids) heap =
      elim (Bool-cases (is_expired now timeout (entry_at id heap))) [
        | inl t ↦
            rw t (scan-field f same k ids _ ∙ entry-set f heap id k _ (same (entry_at id heap)))
        | inr t ↦
            rw t (scan-field f same k ids _ ∙ entry-set f heap id k _ (same (entry_at id heap)))
      ]

  pub length-scan :
      (ids : List ℕ) (heap : List ConnectionEntry)
      → length (scan now timeout ids heap).2 ≡ length heap
  unfolding scan
  length-scan [] heap = refl
  length-scan (id ∷ ids) heap = elim (Bool-cases (is_expired now timeout (entry_at id heap))) [
    | inl t ↦ rw t (length-scan ids _ ∙ length-set heap id _)
    | inr t ↦ rw t (length-scan ids _ ∙ length-set heap id _)
  ]

  -- An entry that is not in the slot is not met.
  pub scan_unmet :
      (k : ℕ) (ids : List ℕ) (heap : List ConnectionEntry)
      → times k ids ≡ 0
      → entry_at k (scan now timeout ids heap).2 ≡ entry_at k heap
  unfolding scan
  scan_unmet k [] heap h = refl
  scan_unmet k (id ∷ ids) heap h = elim (Bool-cases (is_expired now timeout (entry_at id heap))) [
    | inl t ↦ rw t (
        scan_unmet k ids _ (omega arith)
        ∙ get_or-set_ne heap {i = id} {j = k} _ blank (λ q. absurd (ground arith)))
    | inr t ↦ rw t (
        scan_unmet k ids _ (omega arith)
        ∙ get_or-set_ne heap {i = id} {j = k} _ blank (λ q. absurd (ground arith)))
  ]

  scan_first :
      (k : ℕ) (ids : List ℕ) (heap : List ConnectionEntry)
      → times k ids ≡ 0
      → k < length heap
      → let (kept, expired, heap') = scan now timeout (k ∷ ids) heap in
        (entry_at k heap' ≡ tick_entry (entry_at k heap))
        × (times k expired ≡ (if is_expired now timeout (entry_at k heap) then 1 else 0))
  unfolding scan
  scan_first k ids heap h inside = elim (Bool-cases (is_expired now timeout (entry_at k heap))) [
    | inl t ↦ rw t (
      scan_unmet k ids _ h ∙ get_or-set_self heap k _ blank inside,
      ground (arith, scan-times k ids (set heap k (tick_entry (entry_at k heap)))),
    )
    | inr t ↦ rw t (
      scan_unmet k ids _ h ∙ get_or-set_self heap k _ blank inside,
      ground (arith, scan-times k ids (set heap k (tick_entry (entry_at k heap)))),
    )
  ]

  -- One that is there once is met once.
  pub scan_met :
      (k : ℕ) (ids : List ℕ) (heap : List ConnectionEntry)
      → times k ids ≡ 1
      → k < length heap
      → let (kept, expired, heap') = scan now timeout ids heap in
        (entry_at k heap' ≡ tick_entry (entry_at k heap))
        × (times k expired ≡ (if is_expired now timeout (entry_at k heap) then 1 else 0))
  unfolding scan
  scan_met k [] heap h inside = absurd (omega arith)
  scan_met k (id ∷ ids) heap h inside = elim (Bool-cases (id == k)) [
    | inl same ↦
        subst
          (λ (i : ℕ).
            (entry_at k (scan now timeout (i ∷ ids) heap).2 ≡ tick_entry (entry_at k heap))
            × (times k (scan now timeout (i ∷ ids) heap).1
                ≡ (if is_expired now timeout (entry_at k heap) then 1 else 0)))
          (sym ((==_iff id k).0 same)) (scan_first k ids heap (ground arith) inside)
    | inr other ↦ elim (Bool-cases (is_expired now timeout (entry_at id heap))) [
      | inl t ↦ rw t (
          rw other (
            (later other (
                scan_met k ids (set heap id (tick_entry (entry_at id heap))) (ground arith)
                  (omega (arith, length-set heap id (tick_entry (entry_at id heap)))))).0,
            omega (
              arith,
              (later other (
                  scan_met k ids (set heap id (tick_entry (entry_at id heap))) (ground arith)
                    (omega (arith, length-set heap id (tick_entry (entry_at id heap)))))).1,
            ),
          ))
      | inr t ↦ rw t (
          later other (
            scan_met k ids (set heap id (tick_entry (entry_at id heap))) (ground arith)
              (omega (arith, length-set heap id (tick_entry (entry_at id heap))))))
    ]
  ]
    where
      Met : ConnectionEntry → Type 0
      Met e =
          let (kept, expired, heap') =
            scan now timeout ids (set heap id (tick_entry (entry_at id heap))) in
          (entry_at k heap' ≡ tick_entry e)
          × (times k expired ≡ (if is_expired now timeout e then 1 else 0))

      later :
          (id == k) ≡ false
          → Met (entry_at k (set heap id (tick_entry (entry_at id heap))))
          → Met (entry_at k heap)
      later other met =
          subst Met (get_or-set_ne heap {i = id} {j = k} _ blank (λ q. absurd (ground arith))) met
