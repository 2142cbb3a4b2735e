-- ===== src/IndexedDb/Queue/Examples.antt =====
-- Runs of the queue of mobile/web/drift_worker.dart.js.
use Prim.Native.String.{String}
use text.Mathlib.Text.{◌==◌ as str_eq}
use text.Mathlib.TextEquality.{eq_iff}
use bojairu.Prelude.{
  ℕ, ◌≡◌, sym, ◌∙◌, refl, false, none, some, List, [], ◌∷◌, arith, if◌then◌else◌, ◌≢◌, Bool-cases,
  inl, inr,
}
use bojairu.IndexedDb.Writes.{write_all_at}
use bojairu.IndexedDb.Queue.{
  Op, create_file, write_file, delete_file, Worker, join_queue, merge_writes, drop_pending,
}
use bojairu.IndexedDb.Queue.Order.{Store, Same, Runs}
use bojairu.IndexedDb.Queue.Joining.{join_queue_refines}
use bojairu.IndexedDb.Queue.Turns.{IsBusy, work, finish_many, finish_many_lem}

-- No task does anything.
abbrev Idle : Unit {0} → Store → Store → Type 0
Idle x s t = Same s t

abbrev no_files : Store
no_files k = none

abbrev one_byte : List (ℕ × List ℕ)
one_byte = (0, 7 ∷ []) ∷ []

abbrev waiting : List (Op (Unit {0}))
waiting = write_file "/a" [] one_byte ∷ (create_file "/a" ∷ [])

abbrev deletion : Op (Unit {0})
deletion = delete_file "/a"

-- A file that was only going to be created is forgotten.
forgotten : join_queue deletion waiting ≡ ([], false)
unfolding join_queue drop_pending
forgotten = refl

one_more :
    join_queue {T = Unit {0}} (write_file "/a" (7 ∷ []) one_byte) waiting
    ≡ (write_file "/a" [] ((0, 7 ∷ []) ∷ one_byte) ∷ (create_file "/a" ∷ []), false)
unfolding join_queue merge_writes
one_more = refl

-- The stored files once "/a" has been created or written.
abbrev only_a : List ℕ → Store
only_a f k = if str_eq k "/a" then some f else none

elsewhere : (f : List ℕ) (k : String) → k ≢ "/a" → only_a f k ≡ none
elsewhere f k n = elim (Bool-cases (str_eq k "/a")) [
  | inl e ↦ absurd (n ((eq_iff k "/a").0 e))
  | inr e ↦ rw e refl
]

runs : Runs Idle (deletion ∷ waiting) no_files no_files
runs = (
  only_a (write_all_at [] one_byte),
  (
    only_a [],
    (no_files, λ k. refl, ((refl, refl), λ k n. elsewhere [] k n)),
    ((refl, refl), λ k n. elsewhere (write_all_at [] one_byte) k n ∙ sym (elsewhere [] k n)),
  ),
  ((λ e. cc e, refl), λ k n. sym (elsewhere (write_all_at [] one_byte) k n)),
)

join_queue_refines_example : Runs Idle (join_queue deletion waiting).0 no_files no_files
join_queue_refines_example = join_queue_refines Idle deletion waiting no_files no_files runs

abbrev worker : Worker (Unit {0})
worker = record {
  closed = false;
  running = some (create_file "/a");
  pending = write_file "/a" [] one_byte ∷ [];
}

worker-IsBusy : IsBusy worker
worker-IsBusy e = cc e

finish_many_lem_example : work (finish_many 2 worker) ≡ []
finish_many_lem_example = finish_many_lem 2 worker worker-IsBusy (omega arith)
