-- ===== src/IndexedDb/Mirror/Writing.antt =====
-- Writes to the files that the database worker (mobile/web/drift_worker.dart.js, `A.it.be`) keeps in
-- memory, and the stored files behind them.
use Prim.Native.String.{String}
use text.Mathlib.Text.{◌==◌ as str_eq}
use text.Mathlib.TextEquality.{eq_iff}
use bojairu.Prelude.{
  ℕ, ◌+◌, ◌<◌, length, ◌⊎◌, ◌≡◌, ◌≢◌, refl, sym, ◌∙◌, true, false, none, some, List, [], ◌∷◌,
  if◌then◌else◌, arith, Bool-cases, Option-cases, inl, inr,
}
use bojairu.Prelude.Dict.{lookup, string_Eq}
use bojairu.Bytes.Buffer.{Buffer, contents}
use bojairu.Bytes.Flat.{write_at}
use bojairu.MemoryFs.{Files, File}
use bojairu.MemoryFs.Laws.{file, file_or_empty, write_refines}
use bojairu.IndexedDb.Writes.{write_all_at}
use bojairu.IndexedDb.Queue.{write_file}
use bojairu.IndexedDb.Queue.Order.{Store, Same, Change, Writes}
use bojairu.IndexedDb.Queue.Dropping.{Runs-Same}
use bojairu.IndexedDb.Queue.Turns.{work}
use bojairu.IndexedDb.Mirror.{Task, IndexedFs, is_temporary, view_of, write_indexed}
use bojairu.IndexedDb.Mirror.Follows.{persisted, Follows, submit_to-Follows}

-- The files after one of them has changed from `fs` to `gs`.
abbrev Differs : String → List ℕ → Files → Files → Type 0
Differs p f fs gs = (k : String) → file gs k ≡ (if str_eq p k then some f else file fs k)

file-file_or_empty :
    (fs : Files) (p : String) → file fs p ≢ none → file fs p ≡ some (file_or_empty fs p)
unfolding file_or_empty
file-file_or_empty fs p n = elim (Option-cases (file fs p)) [
  | inl e ↦ absurd (n e)
  | inr (f, e) ↦ rw (e, file_or_empty) refl
]

-- The file's backing store ends before `end`.
abbrev pub Outgrows : Files → String → ℕ → Type 0
Outgrows fs p end = (r : Buffer) × (lookup p fs ≡ some r) × (length r.store < end)

-- The view still holds the file's content.
view_of-file_or_empty :
    (fs : Files) (p : String) (end : ℕ) (later : List ℕ)
    → Outgrows fs p end ⊎ (later ≡ file_or_empty fs p)
    → view_of fs p end later ≡ file_or_empty fs p
unfolding view_of file_or_empty file
view_of-file_or_empty fs p end later (inl (r, e, less)) = ground (arith, e, less)
view_of-file_or_empty fs p end later (inr e) = elim (Option-cases (lookup p fs)) [
  | inl n ↦ rw (n, view_of, file_or_empty, file) refl
  | inr (r, n) ↦ let full : later ≡ contents r = ground (arith, e, n) in ground (arith, n, full)
]

persisted_temporary :
    (fs : IndexedFs) (gs : Files) (p : String) (f : List ℕ)
    → Differs p f fs.files gs
    → is_temporary fs p ≡ true
    → Same (persisted fs) (persisted (record fs { files = gs }))
unfolding persisted
persisted_temporary fs gs p f d t k = elim (Bool-cases (str_eq p k)) [
  | inl e ↦
      let here : p ≡ k = (eq_iff p k).0 e in
      let u : is_temporary fs k ≡ true = rw (sym here) t in ground arith
  | inr e ↦ ground (arith, d k, e)
]

persisted_written :
    (fs : IndexedFs) (gs : Files) (p : String) (a : List ℕ) (b : ℕ)
    → Differs p (write_at (file_or_empty fs.files p) b a) fs.files gs
    → is_temporary fs p ≡ false
    → file fs.files p ≢ none
    → Change p
        (Writes (file_or_empty fs.files p) ((b, a) ∷ []))
        (persisted fs)
        (persisted (record fs { files = gs }))
unfolding persisted write_all_at
persisted_written fs gs p a b d t there =
    let old = file-file_or_empty fs.files p there in
    let self : str_eq p p ≡ true = (eq_iff p p).1 refl in
    ((ground arith, ground (arith, d p)), λ k n. ground (arith, d k, (eq_iff p k).0))

kept_after :
    (fs gs : Files) (p k : String) (f : List ℕ)
    → Differs p f fs gs
    → file fs k ≢ none
    → file gs k ≢ none
kept_after fs gs p k f d n e = elim (Bool-cases (str_eq p k)) [
  | inl s ↦ let now : file gs k ≡ some f = d k ∙ rw s refl in cc (now, e)
  | inr s ↦ let now : file gs k ≡ file fs k = d k ∙ rw s refl in n (sym now ∙ e)
]

module _ (effect : Task → Store → Store → Type 0) where
  -- A write to an open file that has not been deleted, in a file system that is not closed and
  -- whose queue leads from the stored files to those in memory, where the write outgrows the
  -- backing store of the file's buffer, or the view that its operation has of that store still
  -- holds the content from before the write when the operation runs: it succeeds, the file in
  -- memory has the bytes written over it, and again what runs and waits leads from the stored files
  -- to those in memory, also where the write was added to an operation that waits or the file is a
  -- temporary one.
  pub write_indexed-Follows :
      (stored : Store) (fs : IndexedFs) (h : File) (a : List ℕ) (b : ℕ) (later : List ℕ)
      → Follows effect stored fs
      → fs.worker.closed ≡ false
      → file fs.files h.path ≢ none
      → Outgrows fs.files h.path (b + length a) ⊎ (later ≡ file_or_empty fs.files h.path)
      → (fs' : IndexedFs) × (write_indexed fs h a b later ≡ some fs')
        × Follows effect stored fs'
        × (file fs'.files h.path ≡ some (write_at (file_or_empty fs.files h.path) b a))
  unfolding write_indexed
  write_indexed-Follows stored fs h a b later f open_ there still =
      let p = h.path in
      let (files, done, sound, same) = write_refines fs.files h a b f.sound in
      let written : file files p ≡ some (write_at (file_or_empty fs.files p) b a) =
        same p ∙ rw ((eq_iff p p).1 refl) refl in
      let still_there : (gs : Files)
          → Differs p (write_at (file_or_empty fs.files p) b a) fs.files gs
          → (k : String) → is_temporary fs k ≡ true
          → file gs k ≢ none =
        λ gs d k t. kept_after fs.files gs p k _ d (f.kept k t) in
      elim (Bool-cases (is_temporary fs p)) [
        | inl t ↦ (
          record fs { files = files },
          ground (arith, done),
          record {
            sound = sound;
            busy = f.busy;
            kept = still_there files same;
            queued =
                Runs-Same effect (work fs.worker) stored (persisted fs)
                  (persisted (record fs { files = files })) f.queued
                  (persisted_temporary fs files p _ same t);
          },
          written,
        )
        | inr t ↦
            let fs₁ : IndexedFs = record fs { files = files } in
            let seen : view_of fs.files p (b + length a) later ≡ file_or_empty fs.files p =
              view_of-file_or_empty fs.files p (b + length a) later still in
            let (fs', done', follows, kept) =
              submit_to-Follows effect stored fs₁
                (write_file p (file_or_empty fs.files p) ((b, a) ∷ [])) (persisted fs) open_ sound
                f.busy (still_there files same) f.queued
                (persisted_written fs files p a b same t there) in
            (fs', ground (arith, done, done', seen), follows, rw kept written)
      ]
