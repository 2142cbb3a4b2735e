-- ===== src/IndexedDb/Queue/Dropping.antt =====
-- The deletion of a file, `A.dz.eu` of mobile/web/drift_worker.dart.js, and the operations that it
-- takes out of the queue.
use Prim.Native.String.{String}
use text.Mathlib.Text.{◌==◌ as str_eq}
use text.Mathlib.TextEquality.{eq_iff}
use bojairu.Prelude.{
  ℕ, ◌≡◌, ◌≢◌, sym, ◌∙◌, Bool, true, false, Option, none, List, [], ◌∷◌, if◌then◌else◌, Bool-cases,
  inl, inr,
}
use bojairu.IndexedDb.Queue.{Op, task, delete_file, create_file, write_file, drop_pending}
use bojairu.IndexedDb.Queue.Order.{
  Store, Same, Change, Creates, Deletes, Writes, Does, Runs, commute, different,
}

module _ {T : Type 0} (effect : T → Store → Store → Type 0) where
  -- The queue with the deletion, where it is needed.
  abbrev pub with_deletion : String → List (Op T) × Bool → List (Op T)
  with_deletion p (q, b) = if b then delete_file p ∷ q else q

  changed_to :
      (p : String) (d : Option (List ℕ) → Option (List ℕ) → Type 0) (s t t' : Store)
      → Change p d s t
      → Same t t'
      → Change p d s t'
  changed_to p d s t t' c e = (rw (sym (e p)) (c.0), λ k n. sym (e k) ∙ c.1 k n)

  pub Runs-Same :
      (q : List (Op T)) (s t t' : Store) → Runs effect q s t → Same t t' → Runs effect q s t'
  Runs-Same [] s t t' r e = λ k. r k ∙ e k
  Runs-Same (task x ∷ q) s t t' (u, r, (v, x', e')) e = (u, r, (v, x', λ k. e' k ∙ e k))
  Runs-Same (delete_file p ∷ q) s t t' (u, r, c) e = (u, r, changed_to p Deletes u t t' c e)
  Runs-Same (create_file p ∷ q) s t t' (u, r, c) e = (u, r, changed_to p Creates u t t' c e)
  Runs-Same (write_file p y z ∷ q) s t t' (u, r, c) e = (u, r, changed_to p (Writes y z) u t t' c e)

  -- An operation on another file goes behind the deletion.
  put_behind :
      (p o : String) (d : Option (List ℕ) → Option (List ℕ) → Type 0) (op : Op T)
      → ((x y : Store) → Change o d x y → Does effect op x y)
      → o ≢ p
      → (q : List (Op T)) (b : Bool) (s w t : Store) → Runs effect (with_deletion p (q, b)) s w
      → Change o d w t
      → Runs effect (with_deletion p (op ∷ q, b)) s t
  put_behind p o d op does n q false s w t runs c = (w, runs, does w t c)
  put_behind p o d op does n q true s w t (x, before, deleted) c =
      let (y, first, second) = commute o p d Deletes x w t (λ h. n (sym h)) deleted c in
      (y, (x, before, does x y first), second)

  created_deleted :
      (p : String) (u v t : Store) → Change p Creates u v → Change p Deletes v t → Same u t
  created_deleted p u v t made gone k = elim (Bool-cases (str_eq k p)) [
    | inl e ↦ let here : k ≡ p = (eq_iff k p).0 e in rw here (made.0.0 ∙ sym (gone.0.1))
    | inr e ↦ let there = different k p e in sym (gone.1 k there ∙ made.1 k there)
  ]

  written_deleted :
      (p : String) (y : List ℕ) (z : List (ℕ × List ℕ)) (u v t : Store)
      → Change p (Writes y z) u v
      → Change p Deletes v t
      → Change p Deletes u t
  written_deleted p y z u v t made gone =
      ((λ e. cc (made.0.0, e), gone.0.1), λ k n. gone.1 k n ∙ made.1 k n)

  pub drop_pending_lem :
      (p : String) (q : List (Op T)) (s u t : Store)
      → Runs effect q s u
      → Change p Deletes u t
      → Runs effect (with_deletion p (drop_pending p q)) s t
  unfolding drop_pending
  drop_pending_lem p [] s u t runs c = (u, runs, c)
  drop_pending_lem p (task x ∷ r) s u t runs c = (u, runs, c)
  drop_pending_lem p (delete_file o ∷ r) s u t (v, before, made) c =
      elim (Bool-cases (str_eq o p)) [
        | inl h ↦
            let here : o ≡ p = (eq_iff o p).0 h in
            let gone : u p ≡ none = rw (sym here) (made.0.1) in absurd (c.0.0 gone)
        | inr h ↦
            let n = different o p h in
            let (w, deleted, other) = commute p o Deletes Deletes v u t n made c in
            rw (h, drop_pending)
              (put_behind p o Deletes (delete_file o) (λ x y k. k) n _ _ s w t
                (drop_pending_lem p r s v w before deleted) other)
      ]
  drop_pending_lem p (create_file o ∷ r) s u t (v, before, made) c =
      elim (Bool-cases (str_eq o p)) [
        | inl h ↦
            let here : o ≡ p = (eq_iff o p).0 h in
            rw (h, drop_pending)
              (Runs-Same r s v t before (created_deleted p v u t (rw (sym here) made) c))
        | inr h ↦
            let n = different o p h in
            let (w, deleted, other) = commute p o Deletes Creates v u t n made c in
            rw (h, drop_pending)
              (put_behind p o Creates (create_file o) (λ x y k. k) n _ _ s w t
                (drop_pending_lem p r s v w before deleted) other)
      ]
  drop_pending_lem p (write_file o y z ∷ r) s u t (v, before, made) c =
      elim (Bool-cases (str_eq o p)) [
        | inl h ↦
            let here : o ≡ p = (eq_iff o p).0 h in
            rw (h, drop_pending)
              (drop_pending_lem p r s v t before
                (written_deleted p y z v u t (rw (sym here) made) c))
        | inr h ↦
            let n = different o p h in
            let (w, deleted, other) = commute p o Deletes (Writes y z) v u t n made c in
            rw (h, drop_pending)
              (put_behind p o (Writes y z) (write_file o y z) (λ x y k. k) n _ _ s w t
                (drop_pending_lem p r s v w before deleted) other)
      ]
