-- ===== src/IndexedDb/Disk/Restart.antt =====
-- The end of the queue of mobile/web/drift_worker.dart.js, and the next start of a worker.
use Prim.Native.String.{String}
use mathlib.Core.Path.{subst}
use bojairu.Prelude.{
  ℕ, zero, suc, ◌≡◌, refl, sym, ap, ◌∙◌, Option, none, some, List, [], ◌∷◌, arith, length,
  length-append, Option-cases, inl, inr,
}
use bojairu.Prelude.Dict.{lookup, string_Eq}
use bojairu.IndexedDb.Storage.{Database}
use bojairu.IndexedDb.Queue.{Op, Worker, finish}
use bojairu.IndexedDb.Queue.Order.{Store, Runs}
use bojairu.IndexedDb.Queue.Turns.{IsBusy, doing, work, finish_lem, length_zero}
use bojairu.IndexedDb.Mirror.{Task, IndexedFs}
use bojairu.IndexedDb.Mirror.Follows.{persisted, Follows, split_queue}
use bojairu.IndexedDb.Disk.{Names, Disk, run_op, work_off, started_with, start_indexed}
use bojairu.IndexedDb.Disk.Keeping.{Keeps}
use bojairu.MemoryFs.{Files}
use bojairu.MemoryFs.Laws.{IsSound, file}
use bojairu.IndexedDb.Disk.Loaded.{IsSmall, load_all_lem}
use bojairu.IndexedDb.Disk.Writing.{Extends, Keeps-Same, run_op_lem}

started_with-Follows :
    (s : Store) (files : Files)
    → IsSound files
    → ((p : String) → file files p ≡ s p)
    → Follows Extends s (started_with files)
unfolding persisted lookup
started_with-Follows s files sound same = record {
  sound = sound;
  busy = λ e. refl;
  kept = λ k e. cc e;
  queued = λ k. sym (same k);
}

module _ (d : Database) (n : Names d) where
  work_off-step :
      (fuel : ℕ) (t t' : Disk d n) (w : Worker Task) (o : Op Task)
      → w.running ≡ some o
      → run_op d n t o ≡ some t'
      → work_off d n (suc fuel) t w ≡ work_off d n fuel t' (finish w)
  unfolding work_off
  work_off-step fuel t t' w o e h = rw (e, work_off) (rw h refl)

  -- The operations that run and wait all succeed, and the disk then has the files that they lead to.
  work_off_lem :
      (fuel : ℕ) (t : Disk d n) (w : Worker Task) (s u : Store)
      → IsBusy w
      → length (work w) ≡ fuel
      → Keeps d n t s
      → Runs Extends (work w) s u
      → (t' : Disk d n) × (w' : Worker Task) × (work_off d n fuel t w ≡ some (t', w'))
        × (work w' ≡ [])
        × Keeps d n t' u
  unfolding work_off
  work_off_lem zero t w s u busy h v runs =
      let e : work w ≡ [] = length_zero (work w) (omega (arith, h)) in
      (
        t,
        w,
        refl,
        e,
        Keeps-Same d n t s u v (subst (λ (q : List (Op Task)). Runs Extends q s u) e runs),
      )
  work_off_lem (suc fuel) t w s u busy h v runs = elim (Option-cases w.running) [
    | inl e ↦ absurd (no_work e (busy e))
    | inr (o, e) ↦
        let (busy', parts) = finish_lem w o e in
        let (x, (x', same, does), rest) =
          split_queue Extends (work (finish w)) (o ∷ []) s u
            (subst (λ (q : List (Op Task)). Runs Extends q s u) parts runs) in
        let (t₁, done, v₁) = run_op_lem d n t o x' x (Keeps-Same d n t s x' v same) does in
        let (t₂, w₂, done₂, empty, v₂) =
          work_off_lem fuel t₁ (finish w) x u busy'
            (omega (
              arith,
              h,
              length-append (work (finish w)) (o ∷ []),
              ap (λ (q : List (Op Task)). length q) parts,
            ))
            v₁ rest in
        (t₂, w₂, work_off-step fuel t t₁ w o e done ∙ done₂, empty, v₂)
  ]
    where
      no_work : w.running ≡ none → w.pending ≡ [] → ⊥
      no_work e p =
          let a = ap (λ (r : Option (Op Task)). length (doing r)) e in
          let b = ap (λ (q : List (Op Task)). length q) p in
          omega (arith, h, length-append w.pending (doing w.running), a, b)

  fresh-Keeps : (t : Disk d n) (s : Store) → Keeps d n t s → Keeps d n (record t { ids = [] }) s
  unfolding lookup
  fresh-Keeps t s v = record {
    present = v.present;
    absent = v.absent;
    named = v.named;
    known = λ p i e. absurd (cc e);
    live = v.live;
    live_block = v.live_block;
  }

  -- No file is lost at the end of a worker: if the disk has certain files, the queue of a file
  -- system leads from these to the files in memory, the queued changes of lengths only extend
  -- files, and no file is longer than the largest offset of the key ranges, then all queued
  -- operations succeed, as many as there are leave none, and a worker that starts on this disk
  -- succeeds and has in memory exactly the files that the first one had and did not keep as
  -- temporary. Its queue leads from the files on the disk to those in memory again, and the disk
  -- has those files.
  pub start_indexed-work_off :
      (t : Disk d n) (fs : IndexedFs) (stored : Store)
      → Keeps d n t stored
      → Follows Extends stored fs
      → IsSmall (persisted fs)
      → (t' : Disk d n) × (w : Worker Task) × (work_off d n (length (work fs.worker)) t fs.worker
          ≡ some (t', w))
        × (work w ≡ [])
        × (t₁ : Disk d n) × (fs₁ : IndexedFs) × (start_indexed d n t'.db ≡ some (t₁, fs₁))
        × ((p : String) → file fs₁.files p ≡ persisted fs p)
        × Follows Extends (persisted fs) fs₁
        × Keeps d n t₁ (persisted fs)
  unfolding start_indexed
  start_indexed-work_off t fs stored v f small =
      let s = persisted fs in
      let (t', w, done, empty, v') =
        work_off_lem (length (work fs.worker)) t fs.worker stored s f.busy refl v f.queued in
      let (t₁, files, loaded, sound, same, v₁) =
        load_all_lem d n (record t' { ids = [] }) s (fresh-Keeps t' s v') small in
      (
        t',
        w,
        done,
        empty,
        t₁,
        started_with files,
        rw (loaded, start_indexed) refl,
        same,
        started_with-Follows s files sound same,
        v₁,
      )
