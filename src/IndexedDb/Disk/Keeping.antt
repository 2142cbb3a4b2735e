-- ===== src/IndexedDb/Disk/Keeping.antt =====
-- When the disk of `A.d5` of mobile/web/drift_worker.dart.js has certain files, by their names, and how
-- the change of one file keeps the others.
use Prim.Native.String.{String}
use text.Mathlib.Text.{◌==◌ as str_eq}
use text.Mathlib.TextEquality.{eq_iff}
use bojairu.Prelude.{
  ℕ, ◌*◌, ◌/◌, ◌≡◌, ◌≢◌, ◌<◌, ◌≤◌, ◌⊎◌, refl, sym, ap, ◌∙◌, none, some, List, arith, ◌==◌, ==_iff,
  Bool-cases, inl, inr,
}
use bojairu.Prelude.Dict.{lookup, nat_Eq, string_Eq}
use bojairu.IndexedDb.{block_size}
use bojairu.IndexedDb.Storage.{Database}
use bojairu.IndexedDb.Loading.{Holds}
use bojairu.IndexedDb.Queue.Order.{Store}
use bojairu.IndexedDb.Disk.{Names, Disk}
use bojairu.IndexedDb.Disk.Naming.{name_of}

pub same_name : (p q : String) → (p ≡ q) ⊎ (p ≢ q)
same_name p q = elim (Bool-cases (str_eq p q)) [
  | inl e ↦ inl ((eq_iff p q).0 e)
  | inr e ↦ inr (λ h. ground (arith, (eq_iff p q).1 h, e))
]

same_id : (i j : ℕ) → (i ≡ j) ⊎ (i ≢ j)
same_id i j = elim (Bool-cases (i == j)) [
  | inl e ↦ inl ((==_iff i j).0 e)
  | inr e ↦ inr (λ h. ground (arith, e, h))
]

module _ (d : Database) (n : Names d) where
  -- The disk has the files `s`: each name leads to the id of a file that the database holds, the ids
  -- that the worker knows are right, and no file and no block has an id that is still to come.
  pub record Keeps (t : Disk d n) (s : Store) : Type 0 where
    pub present :
        (p : String) (f : List ℕ)
        → s p ≡ some f
        → (i : ℕ) × (n.key_of t.db p ≡ some i) × Holds d t.db i f
    pub absent : (p : String) → s p ≡ none → n.key_of t.db p ≡ none
    pub named : (p : String) (i : ℕ) → n.key_of t.db p ≡ some i → name_of d n t.db i ≡ some p
    pub known : (p : String) (i : ℕ) → lookup p t.ids ≡ some i → n.key_of t.db p ≡ some i
    pub live : (p : String) (i : ℕ) → name_of d n t.db i ≡ some p → i < n.next_id t.db
    pub live_block : (i k : ℕ) (b : List ℕ) → d.get_block t.db i k ≡ some b → i < n.next_id t.db

  pub name_of-Same :
      (db db' : d.Db) (j : ℕ)
      → d.get_file db' j ≡ d.get_file db j
      → name_of d n db' j ≡ name_of d n db j
  name_of-Same db db' j h = rw (h, name_of) refl

  -- A file is held where its record and its blocks are the same.
  pub Holds-Same :
      (db db' : d.Db) (i : ℕ) (f : List ℕ)
      → d.get_file db' i ≡ d.get_file db i
      → ((k : ℕ) → d.get_block db' i k ≡ d.get_block db i k)
      → Holds d db i f
      → Holds d db' i f
  Holds-Same db db' i f file blocks h = record {
    entry = h.entry;
    is_there = file ∙ h.is_there;
    len = h.len;
    good = λ k s e. h.good k s (sym (blocks k) ∙ e);
    same = λ j. rw (blocks (j / block_size * block_size)) (h.same j);
  }

  -- Only the file of one name, with one id, has changed.
  pub record Changed (db db' : d.Db) (p : String) (i : ℕ) : Type 0 where
    pub keys : (q : String) → q ≢ p → n.key_of db' q ≡ n.key_of db q
    pub files : (j : ℕ) → j ≢ i → d.get_file db' j ≡ d.get_file db j
    pub blocks : (j k : ℕ) → j ≢ i → d.get_block db' j k ≡ d.get_block db j k
    pub next : n.next_id db ≤ n.next_id db'
    pub whose : (name_of d n db i ≡ some p) ⊎ (n.next_id db ≤ i)
    pub here : (j : ℕ) → n.key_of db' p ≡ some j → name_of d n db' j ≡ some p
    pub live_here : i < n.next_id db'

  pub Changed-Keeps :
      (t t' : Disk d n) (s u : Store) (p : String) (i : ℕ)
      → Keeps t s
      → Changed t.db t'.db p i
      → ((q : String) → q ≢ p → u q ≡ s q)
      → ((q : String) (j : ℕ) → lookup q t'.ids ≡ some j → n.key_of t'.db q ≡ some j)
      → ((f : List ℕ) → u p ≡ some f → (j : ℕ) × (n.key_of t'.db p ≡ some j) × Holds d t'.db j f)
      → (u p ≡ none → n.key_of t'.db p ≡ none)
      → Keeps t' u
  Changed-Keeps t t' s u p i v c others known there gone =
      let other = λ (q : String) (j : ℕ) (e : n.key_of t.db q ≡ some j) (m : q ≢ p).
        apart q j (v.named q j e) m in
      record {
        present = λ q f e. elim (same_name q p) [
          | inl h ↦
              let (j, key, held) = there f (ap u (sym h) ∙ e) in
              (j, ap (n.key_of t'.db) h ∙ key, held)
          | inr h ↦
              let (j, key, held) = v.present q f (sym (others q h) ∙ e) in
              let m = other q j key h in
              (
                j,
                c.keys q h ∙ key,
                Holds-Same t.db t'.db j f (c.files j m) (λ k. c.blocks j k m) held,
              )
        ];
        absent = λ q e. elim (same_name q p) [
          | inl h ↦ ap (n.key_of t'.db) h ∙ gone (ap u (sym h) ∙ e)
          | inr h ↦ c.keys q h ∙ v.absent q (sym (others q h) ∙ e)
        ];
        named = λ q j e. elim (same_name q p) [
          | inl h ↦ c.here j (ap (n.key_of t'.db) (sym h) ∙ e) ∙ ap some (sym h)
          | inr h ↦
              let key : n.key_of t.db q ≡ some j = sym (c.keys q h) ∙ e in
              rw (c.files j (other q j key h), name_of) (v.named q j key)
        ];
        known = known;
        live = λ q j e. elim (same_id j i) [
          | inl h ↦ rw h (c.live_here)
          | inr h ↦
              let old : name_of d n t.db j ≡ some q =
                sym (name_of-Same t.db t'.db j (c.files j h)) ∙ e in
              omega (arith, v.live q j old, c.next)
        ];
        live_block = λ j k b e. elim (same_id j i) [
          | inl h ↦ rw h (c.live_here)
          | inr h ↦ omega (arith, v.live_block j k b (sym (c.blocks j k h) ∙ e), c.next)
        ];
      }
    where
      apart : (q : String) (j : ℕ) → name_of d n t.db j ≡ some q → q ≢ p → j ≢ i
      apart q j e m h = elim c.whose [
        | inl w ↦ m (ground (arith, e, w, h))
        | inr w ↦ omega (arith, v.live q j e, w, h)
      ]
