-- ===== src/IndexedDb/Queue/Joining.antt =====
-- What the waiting operations of mobile/web/drift_worker.dart.js do, before and after a new one has
-- joined the queue (`eu`).
use Prim.Native.String.{String}
use text.Mathlib.Text.{◌==◌ as str_eq}
use text.Mathlib.TextEquality.{eq_iff}
use bojairu.Prelude.{
  ℕ, ◌≡◌, sym, ap, ◌∙◌, some, List, [], ◌∷◌, ◌++◌, arith, Bool-cases, Option-cases, inl, inr,
}
use bojairu.IndexedDb.Writes.{write_all_at}
use bojairu.IndexedDb.Queue.{
  Op, task, delete_file, create_file, write_file, merge_writes, drop_pending, join_queue,
}
use bojairu.IndexedDb.Queue.Dropping.{drop_pending_lem}
use bojairu.IndexedDb.Queue.Order.{
  Store, Change, Creates, Writes, Runs, commute, different, write_all_at-append,
}

fused :
    (p : String) (y y' : List ℕ) (w z : List (ℕ × List ℕ)) (u v t : Store)
    → Change p (Writes y w) u v
    → Change p (Writes y' z) v t
    → Change p (Writes y (w ++ z)) u t
fused p y y' w z u v t first second =
    let start : y' ≡ write_all_at y w = cc (first.0.1, second.0.0) in
    (
      (
        first.0.0,
        second.0.1 ∙ ap some (ap (λ f. write_all_at f z) start ∙ sym (write_all_at-append y w z)),
      ),
      λ k n. second.1 k n ∙ first.1 k n,
    )

module _ {T : Type 0} (effect : T → Store → Store → Type 0) where
  pub merge_writes_lem :
      (p : String) (y : List ℕ) (z : List (ℕ × List ℕ)) (q q' : List (Op T)) (s u t : Store)
      → merge_writes p z q ≡ some q'
      → Runs effect q s u
      → Change p (Writes y z) u t
      → Runs effect q' s t
  unfolding merge_writes
  merge_writes_lem p y z [] q' s u t e runs c = cc e
  merge_writes_lem p y z (task x ∷ r) q' s u t e runs c = cc e
  merge_writes_lem p y z (delete_file o ∷ r) q' s u t e runs c = cc e
  merge_writes_lem p y z (create_file o ∷ r) q' s u t e (v, before, made) c =
      elim (Bool-cases (str_eq o p)) [
        | inl h ↦ absurd (ground (arith, e, h))
        | inr h ↦ elim (Option-cases (merge_writes p z r)) [
          | inl m ↦ absurd (ground (arith, e, h, m))
          | inr (m, f) ↦
              let same : q' ≡ create_file o ∷ m = ground (arith, e, h, f) in
              let (w, written, created) =
                commute p o (Writes y z) Creates v u t (different o p h) made c in
              rw same (w, merge_writes_lem p y z r m s v w f before written, created)
        ]
      ]
  merge_writes_lem p y z (write_file o x a ∷ r) q' s u t e (v, before, made) c =
      elim (Bool-cases (str_eq o p)) [
        | inl h ↦
            let same : q' ≡ write_file o x (a ++ z) ∷ r = ground (arith, e, h) in
            let here : o ≡ p = (eq_iff o p).0 h in
            rw same (v, before, rw here (fused p x y a z v u t (rw (sym here) made) c))
        | inr h ↦ elim (Option-cases (merge_writes p z r)) [
          | inl m ↦ absurd (ground (arith, e, h, m))
          | inr (m, f) ↦
              let same : q' ≡ write_file o x a ∷ m = ground (arith, e, h, f) in
              let (w, written, other) =
                commute p o (Writes y z) (Writes x a) v u t (different o p h) made c in
              rw same (w, merge_writes_lem p y z r m s v w f before written, other)
        ]
      ]

  -- An operation that joins the queue does what it would do at the queue's end: if the waiting
  -- operations followed by the new one lead from stored files s to t, then so does the queue that
  -- the new one has joined, with the writes that were added to earlier ones and without what a
  -- deletion took out.
  pub join_queue_refines :
      (o : Op T) (q : List (Op T)) (s t : Store)
      → Runs effect (o ∷ q) s t
      → Runs effect (join_queue o q).0 s t
  unfolding join_queue
  join_queue_refines (task x) q s t runs = runs
  join_queue_refines (create_file p) q s t runs = runs
  join_queue_refines (write_file p y z) q s t (u, before, c) =
      elim (Option-cases (merge_writes p z q)) [
        | inl e ↦ rw (e, join_queue) (u, before, c)
        | inr (q', e) ↦ rw (e, join_queue) (merge_writes_lem p y z q q' s u t e before c)
      ]
  join_queue_refines (delete_file p) q s t (u, before, c) =
      let known = drop_pending_lem effect p q s u t before c in
      elim (Bool-cases ((drop_pending p q).1)) [
        | inl e ↦ let known' = rw (e, drop_pending) at known in rw (e, join_queue) known'
        | inr e ↦ let known' = rw (e, drop_pending) at known in rw (e, join_queue) known'
      ]
