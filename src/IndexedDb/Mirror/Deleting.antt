-- ===== src/IndexedDb/Mirror/Deleting.antt =====
-- Deleting a file that the database worker (mobile/web/drift_worker.dart.js, `A.d5.dc`) keeps in
-- memory, and the stored file behind it.
use Prim.Native.String.{String}
use text.Mathlib.Text.{◌==◌ as str_eq}
use text.Mathlib.TextEquality.{eq_iff}
use bojairu.Prelude.{
  ◌≡◌, ◌≢◌, refl, sym, ap, ◌∙◌, true, false, none, some, if◌then◌else◌, arith, Bool-cases, inl, inr,
}
use bojairu.Prelude.Dict.{remove, lookup-remove, string_Eq}
use bojairu.MemoryFs.{Files, delete}
use bojairu.MemoryFs.Laws.{IsSound, file}
use bojairu.IndexedDb.Queue.{delete_file}
use bojairu.IndexedDb.Queue.Order.{Store, Same, Change, Deletes}
use bojairu.IndexedDb.Queue.Dropping.{Runs-Same}
use bojairu.IndexedDb.Queue.Turns.{work}
use bojairu.IndexedDb.Mirror.{Task, IndexedFs, is_temporary, delete_indexed}
use bojairu.MemoryFs.Reach.{deleted, Step-IsSound}
use bojairu.IndexedDb.Mirror.Follows.{persisted, Follows, submit_to-Follows}

file-delete :
    (fs : Files) (a k : String) → file (delete fs a) k ≡ (if str_eq a k then none else file fs k)
unfolding file delete
file-delete fs a k = ground (arith, lookup-remove a k fs)

forgotten :
    (fs : IndexedFs) (a : String)
    → is_temporary fs a ≡ true
    → Same
        (persisted fs)
        (persisted (record fs { files = delete fs.files a; temporary = remove a fs.temporary }))
unfolding persisted
forgotten fs a t k = elim (Bool-cases (str_eq a k)) [
  | inl e ↦
      let here : a ≡ k = (eq_iff a k).0 e in
      let u : is_temporary fs k ≡ true = rw (sym here) t in
      ground (arith, lookup-remove a k fs.temporary, file-delete fs.files a k)
  | inr e ↦ ground (arith, lookup-remove a k fs.temporary, file-delete fs.files a k, e)
]

persisted_deleted :
    (fs : IndexedFs) (a : String)
    → is_temporary fs a ≡ false
    → file fs.files a ≢ none
    → Change a Deletes (persisted fs) (persisted (record fs { files = delete fs.files a }))
unfolding persisted
persisted_deleted fs a t there =
    let self : str_eq a a ≡ true = (eq_iff a a).1 refl in
    (
      (λ e. there (ground arith), ground (arith, file-delete fs.files a a)),
      λ k n. ground (arith, file-delete fs.files a k, (eq_iff a k).0),
    )

still_kept :
    (fs : IndexedFs) (a k : String)
    → is_temporary fs a ≡ false
    → is_temporary fs k ≡ true
    → file fs.files k ≢ none
    → file (delete fs.files a) k ≢ none
still_kept fs a k t u n gone = elim (Bool-cases (str_eq a k)) [
  | inl e ↦
      let here : a ≡ k = (eq_iff a k).0 e in
      let same : is_temporary fs a ≡ is_temporary fs k = ap (is_temporary fs) here in
      absurd (ground (arith, same, t, u))
  | inr e ↦
      let same : file (delete fs.files a) k ≡ file fs.files k =
        file-delete fs.files a k ∙ rw e refl in
      n (sym same ∙ gone)
]

module _ (effect : Task → Store → Store → Type 0) where
  -- Deleting a file that exists, in a file system that is not closed and whose queue leads from the
  -- stored files to those in memory, succeeds. The file is gone from memory, and again what runs
  -- and waits leads from the stored files to those in memory, also where the deletion took
  -- operations out of the queue.
  pub delete_indexed-Follows :
      (stored : Store) (fs : IndexedFs) (a : String)
      → Follows effect stored fs
      → fs.worker.closed ≡ false
      → file fs.files a ≢ none
      → (fs' : IndexedFs) × (delete_indexed fs a ≡ some fs')
        × Follows effect stored fs'
        × (file fs'.files a ≡ none)
  unfolding delete_indexed
  delete_indexed-Follows stored fs a f open_ there =
      let files = delete fs.files a in
      let sound : IsSound files = Step-IsSound (deleted a) f.sound in
      let gone : file files a ≡ none = file-delete fs.files a a ∙ rw ((eq_iff a a).1 refl) refl in
      elim (Bool-cases (is_temporary fs a)) [
        | inl t ↦ (
          record fs { files = files; temporary = remove a fs.temporary },
          ground arith,
          record {
            sound = sound;
            busy = f.busy;
            kept = λ k u.
                ground (arith, lookup-remove a k fs.temporary, file-delete fs.files a k, f.kept k);
            queued =
                Runs-Same effect (work fs.worker) stored (persisted fs)
                  (persisted (record fs { files = files; temporary = remove a fs.temporary }))
                  f.queued (forgotten fs a t);
          },
          gone,
        )
        | inr t ↦
            let (fs', done', follows, kept) =
              submit_to-Follows effect stored (record fs { files = files }) (delete_file a)
                (persisted fs) open_ sound f.busy (λ k u. still_kept fs a k t u (f.kept k u))
                f.queued (persisted_deleted fs a t there) in
            (fs', ground (arith, done'), follows, rw kept gone)
      ]
