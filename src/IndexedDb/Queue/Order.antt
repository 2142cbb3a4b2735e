-- ===== src/IndexedDb/Queue/Order.antt =====
-- What the operations in the queue of mobile/web/drift_worker.dart.js do to the stored files, and in
-- which order they can be taken.
use Prim.Native.String.{String}
use text.Mathlib.Text.{◌==◌ as str_eq}
use text.Mathlib.TextEquality.{eq_iff}
use bojairu.Prelude.{
  ℕ, ◌≡◌, ◌≢◌, refl, sym, ◌∙◌, false, Option, none, some, List, [], ◌∷◌, ◌++◌, if◌then◌else◌, arith,
  Bool-cases, inl, inr,
}
use bojairu.Bytes.Flat.{write_at}
use bojairu.IndexedDb.Writes.{write_all_at}
use bojairu.IndexedDb.Queue.{Op, task, delete_file, create_file, write_file}

-- The stored files by their names.
abbrev pub Store : Type 0
Store = String → Option (List ℕ)

abbrev pub Same : Store → Store → Type 0
Same s t = (k : String) → s k ≡ t k

-- One file is changed.
abbrev pub Change : String → (Option (List ℕ) → Option (List ℕ) → Type 0) → Store → Store → Type 0
Change p d s t = d (s p) (t p) × ((k : String) → k ≢ p → t k ≡ s k)

-- A file can be created where there is none, deleted where there is one, and written where it has
-- the content that the operation starts from.
abbrev pub Creates : Option (List ℕ) → Option (List ℕ) → Type 0
Creates a b = (a ≡ none) × (b ≡ some [])

abbrev pub Deletes : Option (List ℕ) → Option (List ℕ) → Type 0
Deletes a b = (a ≢ none) × (b ≡ none)

abbrev pub Writes : List ℕ → List (ℕ × List ℕ) → Option (List ℕ) → Option (List ℕ) → Type 0
Writes y z a b = (a ≡ some y) × (b ≡ some (write_all_at y z))

module _ {T : Type 0} (effect : T → Store → Store → Type 0) where
  -- What an operation does to the stored files.
  abbrev pub Does : Op T → Store → Store → Type 0
  Does (task x) s t = (u : Store) × effect x s u × Same u t
  Does (delete_file p) s t = Change p Deletes s t
  Does (create_file p) s t = Change p Creates s t
  Does (write_file p y z) s t = Change p (Writes y z) s t

  -- The waiting operations, done in their order, lead from `s` to `t`.
  abbrev pub Runs : List (Op T) → Store → Store → Type 0
  Runs [] s t = Same s t
  Runs (o ∷ q) s t = (u : Store) × Runs q s u × Does o u t

pub write_all_at-append :
    (f : List ℕ) (z w : List (ℕ × List ℕ))
    → write_all_at f (z ++ w) ≡ write_all_at (write_all_at f z) w
unfolding write_all_at
write_all_at-append f [] w = refl
write_all_at-append f ((a, b) ∷ z) w = write_all_at-append (write_at f a b) z w

-- The state `t` at one name, and `u` elsewhere.
patch : String → Store → Store → Store
patch p t u k = if str_eq k p then t p else u k

patch_here : (p : String) (t u : Store) → patch p t u p ≡ t p
unfolding patch
patch_here p t u = rw ((eq_iff p p).1 refl) refl

patch_there : (p : String) (t u : Store) (k : String) → k ≢ p → patch p t u k ≡ u k
unfolding patch
patch_there p t u k n = elim (Bool-cases (str_eq k p)) [
  | inl e ↦ absurd (n ((eq_iff k p).0 e))
  | inr e ↦ rw e refl
]

-- Changes of two files can be made in either order.
pub commute :
    (p q : String) (d e : Option (List ℕ) → Option (List ℕ) → Type 0) (u v t : Store)
    → q ≢ p
    → Change q e u v
    → Change p d v t
    → (w : Store) × Change p d u w × Change q e w t
commute p q d e u v t n first second =
    let w = patch p t u in
    let there : w q ≡ u q = patch_there p t u q n in
    let old : v p ≡ u p = first.1 p (λ h. n (sym h)) in
    let new : t q ≡ v q = second.1 q n in
    (
      w,
      (rw (sym old, patch_here p t u) (second.0), patch_there p t u),
      (
        rw (there, new) (first.0),
        λ k m. elim (Bool-cases (str_eq k p)) [
          | inl h ↦ let same : k ≡ p = (eq_iff k p).0 h in rw same (sym (patch_here p t u))
          | inr h ↦
              let other : k ≢ p = λ x. ground (arith, (eq_iff k p).1 x, h) in
              second.1 k other ∙ first.1 k m ∙ sym (patch_there p t u k other)
        ],
      ),
    )

pub different : (q p : String) → str_eq q p ≡ false → q ≢ p
different q p h e = ground (arith, (eq_iff q p).1 e, h)
