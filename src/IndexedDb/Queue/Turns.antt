-- ===== src/IndexedDb/Queue/Turns.antt =====
-- The turns of the operations of `A.d5` in mobile/web/drift_worker.dart.js.
use mathlib.Core.List.{append-nil}
use bojairu.Prelude.{
  ℕ, zero, suc, ◌≤◌, ◌≡◌, refl, sym, ap, ◌∙◌, Bool, true, false, Option, none, some, List, [], ◌∷◌,
  ◌++◌, arith, Bool-cases, Option-cases, inl, inr, length, length-append,
}
use bojairu.IndexedDb.Queue.{
  Op, task, delete_file, create_file, write_file, Worker, merge_writes, drop_pending, join_queue,
  take_first, started, start_next, submit, finish,
}

module _ {T : Type 0} where
  -- Operations wait only while one runs.
  abbrev pub IsBusy : Worker T → Type 0
  IsBusy w = w.running ≡ none → w.pending ≡ []

  -- What runs and what waits, the last to come in front.
  abbrev pub doing : Option (Op T) → List (Op T)
  doing none = []
  doing (some o) = o ∷ []

  abbrev pub work : Worker T → List (Op T)
  work w = w.pending ++ doing w.running

  take_first_lem :
      (o : Op T) (r : List (Op T)) → (take_first o r).1 ++ ((take_first o r).0 ∷ []) ≡ o ∷ r
  unfolding take_first
  take_first_lem o [] = refl
  take_first_lem o (o' ∷ r) = ap (λ q. o ∷ q) (take_first_lem o' r)

  started_lem :
      (c : Bool) (running : Option (Op T)) (q : List (Op T))
      → IsBusy (started c running q)
        × (work (started c running q) ≡ q ++ doing running)
        × ((started c running q).closed ≡ c)
  unfolding started
  started_lem c (some o) q = (λ e. cc e, refl, refl)
  started_lem c none [] = (λ e. refl, refl, refl)
  started_lem c none (o ∷ r) = (λ e. cc e, take_first_lem o r ∙ sym (append-nil (o ∷ r)), refl)

  -- While an operation runs, it is the one that has waited longest; when it ends, exactly the
  -- others are left, in their order, and none of them waits while none runs.
  pub finish_lem :
      (w : Worker T) (o : Op T)
      → w.running ≡ some o
      → IsBusy (finish w) × (work w ≡ work (finish w) ++ (o ∷ []))
  unfolding finish start_next
  finish_lem w o e =
      let (busy, same, _) = started_lem w.closed none w.pending in
      (
        busy,
        ap (λ r. w.pending ++ doing r) e
            ∙ ap (λ q. q ++ (o ∷ [])) (sym (same ∙ append-nil w.pending)),
      )

  join_empty : (o : Op T) → (join_queue o []).1 ≡ true
  unfolding join_queue merge_writes drop_pending
  join_empty (task x) = refl
  join_empty (delete_file p) = refl
  join_empty (create_file p) = refl
  join_empty (write_file p y z) = refl

  -- If operations wait only while one runs: a closed file system refuses every operation, and an
  -- open one takes it. The operation joins the waiting ones, the one that runs is left alone, if
  -- none ran the new one is started, and again operations wait only while one runs.
  pub submit_lem :
      (w : Worker T) (o : Op T)
      → IsBusy w
      → (w.closed ≡ true → submit w o ≡ none)
        × (w.closed ≡ false
            → (w' : Worker T) × (submit w o ≡ some w')
              × IsBusy w'
              × (work w' ≡ (join_queue o w.pending).0 ++ doing w.running))
  unfolding submit start_next
  submit_lem w o busy = (
    λ e. rw (e, submit) refl,
    λ e. elim (Bool-cases ((join_queue o w.pending).1)) [
      | inl a ↦
          let (busy', same, _) = started_lem w.closed w.running ((join_queue o w.pending).0) in
          (
            started w.closed w.running ((join_queue o w.pending).0),
            rw (e, submit) (rw a refl),
            busy',
            same,
          )
      | inr a ↦ (
        record w { pending = (join_queue o w.pending).0 },
        rw (e, submit) (rw a refl),
        λ n.
            let empty : w.pending ≡ [] = busy n in
            let added : (join_queue o w.pending).1 ≡ true = rw empty (join_empty o) in
            absurd (ground (arith, added, a)),
        refl,
      )
    ],
  )

  -- The worker after a number of operations have ended.
  unfoldable pub finish_many : ℕ → Worker T → Worker T
  finish_many zero w = w
  finish_many (suc n) w = finish_many n (finish w)

  pub length_zero : (q : List (Op T)) → length q ≤ 0 → q ≡ []
  length_zero [] h = refl
  length_zero (o ∷ q) h = absurd (omega arith)

  finish-length :
      (w : Worker T) (n : ℕ)
      → IsBusy w
      → length (work w) ≤ suc n
      → IsBusy (finish w) × (length (work (finish w)) ≤ n)
  unfolding finish start_next
  finish-length w n busy h =
      let (busy', same, _) = started_lem w.closed none w.pending in
      let kept : length (work (finish w)) ≡ length w.pending =
        ap (λ (q : List (Op T)). length q) (same ∙ append-nil w.pending) in
      elim (Option-cases w.running) [
        | inl e ↦
            let none_waits : length w.pending ≡ 0 = ap (λ (q : List (Op T)). length q) (busy e) in
            (busy', omega (arith, kept, none_waits))
        | inr (o, e) ↦
            let one : length (doing w.running) ≡ 1 =
              ap (λ (r : Option (Op T)). length (doing r)) e in
            (busy', omega (arith, kept, one, h, length-append w.pending (doing w.running)))
      ]

  -- If operations wait only while one runs, as many ends of operations as there are operations
  -- leave nothing to run and nothing to wait, if no new operation comes.
  pub finish_many_lem :
      (n : ℕ) (w : Worker T) → IsBusy w → length (work w) ≤ n → work (finish_many n w) ≡ []
  unfolding finish_many
  finish_many_lem zero w busy h = length_zero (work w) h
  finish_many_lem (suc n) w busy h =
      let (busy', less) = finish-length w n busy h in finish_many_lem n (finish w) busy' less
