-- ===== src/IndexedDb/Queue.antt =====
-- The queue of the IndexedDB file system, `A.d5` of mobile/web/drift_worker.dart.js: the operations
-- that wait for the database (`A.dB`, `A.dz`, `A.cH` and `A.cR`), and how a new one joins them. The
-- linked list is a list with the operation that came last in front.
pub mod Order
pub mod Dropping
pub mod Joining
pub mod Turns
mod Examples
use Prim.Native.String.{String}
use text.Mathlib.Text.{◌==◌ as str_eq}
use bojairu.Prelude.{
  ℕ, Bool, true, false, not, ◌||◌, Option, none, some, List, [], ◌∷◌, ◌++◌, if◌then◌else◌,
}

-- An operation. `T` stands for the functions that an `A.dB` runs.
pub data Op (T : Type 0) : Type 0 where
  -- `A.dB`
  task : T → Op T
  -- `A.dz`: the file is deleted
  delete_file : String → Op T
  -- `A.cH`: the file is created
  create_file : String → Op T
  -- `A.cR`: the writes go to the file with this content
  write_file : String → List ℕ → List (ℕ × List ℕ) → Op T

module _ {T : Type 0} where
  -- `A.cR.eu`, the loop from the last operation back: the writes are added to those that wait for
  -- the same file. `none`: there are none that may be added to.
  unfoldable pub merge_writes : String → List (ℕ × List ℕ) → List (Op T) → Option (List (Op T))
  merge_writes p z [] = none
  merge_writes p z (task x ∷ r) = none
  merge_writes p z (delete_file q ∷ r) = none
  merge_writes p z (create_file q ∷ r) =
      let rest = merge_writes p z r in
      if str_eq q p then none else elim rest [ none ↦ none | some m ↦ some (create_file q ∷ m) ]
  merge_writes p z (write_file q y w ∷ r) =
      let rest = merge_writes p z r in
      if str_eq q p
      then some (write_file q y (w ++ z) ∷ r)
      else elim rest [ none ↦ none | some m ↦ some (write_file q y w ∷ m) ]

  -- `A.dz.eu`, the loop: what waits for the deleted file is taken out. With it, whether the deletion
  -- itself is still needed.
  unfoldable pub drop_pending : String → List (Op T) → List (Op T) × Bool
  drop_pending p [] = ([], true)
  drop_pending p (task x ∷ r) = (task x ∷ r, true)
  drop_pending p (delete_file q ∷ r) =
      let rest = drop_pending p r in
      if str_eq q p then (delete_file q ∷ r, false) else (delete_file q ∷ rest.0, rest.1)
  drop_pending p (create_file q ∷ r) =
      let rest = drop_pending p r in
      if str_eq q p then (r, false) else (create_file q ∷ rest.0, rest.1)
  drop_pending p (write_file q y w ∷ r) =
      let rest = drop_pending p r in
      if str_eq q p then rest else (write_file q y w ∷ rest.0, rest.1)

  -- `eu`: the queue, and whether the operation was put into it.
  unfoldable pub join_queue : Op T → List (Op T) → List (Op T) × Bool
  unfolding merge_writes drop_pending
  join_queue (task x) q = (task x ∷ q, true)
  join_queue (create_file p) q = (create_file p ∷ q, true)
  join_queue (write_file p y z) q = elim (merge_writes p z q) [
    | none ↦ (write_file p y z ∷ q, true)
    | some q' ↦ (q', false)
  ]
  join_queue (delete_file p) q =
      let (q', needed) = drop_pending p q in
      if needed then (delete_file p ∷ q', true) else (q', false)

-- The fields `e` and `d.a` (closed, or no database), `f` (the operation that runs) and `w`.
pub record Worker (T : Type 0) : Type 0 where
  pub closed : Bool
  pub running : Option (Op T)
  pub pending : List (Op T)

module _ {T : Type 0} where
  -- The first operation of the linked list, and the list without it.
  unfoldable pub take_first : Op T → List (Op T) → Op T × List (Op T)
  take_first o [] = (o, [])
  take_first o (o' ∷ r) = let rest = take_first o' r in (rest.0, o ∷ rest.1)

  -- `fH`: if nothing runs, the first operation is started.
  unfoldable pub started : Bool → Option (Op T) → List (Op T) → Worker T
  unfolding take_first
  started c (some o) q = record { closed = c; running = some o; pending = q }
  started c none [] = record { closed = c; running = none; pending = [] }
  started c none (o ∷ r) =
      let (first, rest) = take_first o r in
      record { closed = c; running = some first; pending = rest }

  unfoldable pub start_next : Worker T → Worker T
  unfolding started
  start_next w = started w.closed w.running w.pending

  -- `bV`; `none` is the exception with the code 10.
  unfoldable pub submit : Worker T → Op T → Option (Worker T)
  unfolding join_queue start_next
  submit w o =
      if w.closed
      then none
      else (let (q, added) = join_queue o w.pending in
          let w' : Worker T = record w { pending = q } in
          if added then some (start_next w') else some w')

  -- `A.ko`, when the running operation has ended.
  unfoldable pub finish : Worker T → Worker T
  unfolding start_next
  finish w = start_next (record w { running = none })
