-- ===== src/IndexedDb/ListDatabase.antt =====
-- A database that keeps its blocks in lists, to try the files of mobile/web/drift_worker.dart.js on.
use Prim.Native.String.{String}
use bojairu.Prelude.{
  ℕ, ◌+◌, ◌≡◌, ◌∙◌, refl, Bool, not, ◌&&◌, Option, none, some, List, [], ◌∷◌, arith, leb, ◌==◌,
  ==_iff, ==_refl, ap, if◌then◌else◌, Bool-cases, inl, inr,
}
use bojairu.Prelude.Dict.{
  lookup, insert, remove, lookup-insert, lookup-remove, nat_Eq, string_Eq, Eq,
}
use bojairu.IndexedDb.Storage.{Database, FileRecord, Distinct}

module _ {K : Type 0} {V : Type 0} ⦃e : Eq K⦄ where
  -- The entries whose key passes a test.
  unfoldable pub keep : (K → Bool) → List (K × V) → List (K × V)
  keep p [] = []
  keep p ((k, s) ∷ m) = let rest = keep p m in if p k then (k, s) ∷ rest else rest

  -- The first entry of each key.
  unfoldable pub firsts : List (K × V) → List (K × V)
  firsts [] = []
  firsts ((k, s) ∷ m) = (k, s) ∷ remove k (firsts m)

  pub lookup-keep :
      (p : K → Bool) (m : List (K × V)) (j : K)
      → lookup j (keep p m) ≡ (if p j then lookup j m else none)
  unfolding keep lookup
  lookup-keep p [] j = ground arith
  lookup-keep p ((k, s) ∷ m) j = ground (arith, lookup-keep p m j, e.beq_iff k j)

  pub keep-Distinct : (p : K → Bool) (m : List (K × V)) → Distinct m → Distinct (keep p m)
  unfolding keep
  keep-Distinct p [] v = v
  keep-Distinct p ((k, s) ∷ m) v = elim (Bool-cases (p k)) [
    | inl h ↦ rw (h, keep) (ground (arith, lookup-keep p m k, v.0), keep-Distinct p m (v.1))
    | inr h ↦ rw (h, keep) (keep-Distinct p m (v.1))
  ]

  remove-Distinct : (i : K) (m : List (K × V)) → Distinct m → Distinct (remove i m)
  unfolding remove
  remove-Distinct i [] v = v
  remove-Distinct i ((k, s) ∷ m) v = elim (Bool-cases (e.beq k i)) [
    | inl h ↦ rw (h, remove) (remove-Distinct i m (v.1))
    | inr h ↦ rw (h, remove) (ground (arith, lookup-remove i k m, v.0), remove-Distinct i m (v.1))
  ]

  pub firsts-Distinct : (m : List (K × V)) → Distinct (firsts m)
  unfolding firsts
  firsts-Distinct [] = tt
  firsts-Distinct ((k, s) ∷ m) = (
    ground (arith, lookup-remove k k (firsts m), e.beq_iff k k),
    remove-Distinct k (firsts m) (firsts-Distinct m),
  )

  pub lookup-firsts : (m : List (K × V)) (j : K) → lookup j (firsts m) ≡ lookup j m
  unfolding firsts lookup
  lookup-firsts [] j = refl
  lookup-firsts ((k, s) ∷ m) j =
      ground (arith, lookup-remove k j (firsts m), lookup-firsts m j, e.beq_iff k j)

pub record Lists : Type 0 where
  pub files : ℕ → Option FileRecord
  pub blocks : ℕ → List (ℕ × List ℕ)
  pub next : ℕ
  -- the index of the names
  pub index : List (String × ℕ)

abbrev set {ℓ} : {A : Type ℓ} → (ℕ → A) → ℕ → A → ℕ → A
set f k a j = if k == j then a else f j

abbrev within : ℕ → ℕ → ℕ → Bool
within lo hi j = leb lo j && leb j hi

pub put_lem :
    (b : ℕ → List (ℕ × List ℕ)) (f k g j : ℕ) (s : List ℕ)
    → lookup j (set b f (insert k s (b f)) g)
      ≡ (if f == g && k == j then some s else lookup j (b g))
put_lem b f k g j s = elim (Bool-cases (f == g)) [
  | inl e ↦
      let same : f ≡ g = (==_iff f g).0 e in
      rw same (rw (==_refl g) (ground (arith, lookup-insert k j s (b g))))
  | inr e ↦ rw e refl
]

pub delete_lem :
    (b : ℕ → List (ℕ × List ℕ)) (p : ℕ → Bool) (f g j : ℕ)
    → lookup j (set b f (keep (λ i. not (p i)) (b f)) g)
      ≡ (if f == g && p j then none else lookup j (b g))
delete_lem b p f g j = elim (Bool-cases (f == g)) [
  | inl e ↦
      let same : f ≡ g = (==_iff f g).0 e in
      rw same (rw (==_refl g) (ground (arith, lookup-keep (λ i. not (p i)) (b g) j)))
  | inr e ↦ rw e refl
]

abbrev pub list_database : Database
list_database = record {
  Db = Lists;
  get_file = λ db f. db.files f;
  update_file = λ db f r. record db { files = set db.files f (some r) };
  add_file = λ db r. (
    record {
      files = set db.files db.next (some r);
      blocks = db.blocks;
      next = db.next + 1;
      index = insert r.name db.next db.index;
    },
    db.next,
  );
  delete_file = λ db f. record db {
    files = set db.files f none;
    index = elim (db.files f) [ none ↦ db.index | some r ↦ remove r.name db.index ];
  };
  get_block = λ db f k. lookup k (db.blocks f);
  put_block = λ db f k s. record db { blocks = set db.blocks f (insert k s (db.blocks f)) };
  delete_blocks = λ db f lo hi. record db {
    blocks = set db.blocks f (keep (λ j. not (within lo hi j)) (db.blocks f));
  };
  cursor = λ db f lo hi. keep (within lo hi) (firsts (db.blocks f));
  get_block-put_block = λ db f k g j s. put_lem db.blocks f k g j s;
  get_file-put_block = λ db f k g s. refl;
  get_block-update_file = λ db f g j r. refl;
  get_file-update_file = λ db f g r. refl;
  get_block-delete_blocks = λ db f lo hi g j. delete_lem db.blocks (within lo hi) f g j;
  get_file-delete_blocks = λ db f lo hi g. refl;
  lookup-cursor = λ db f lo hi j.
      lookup-keep _ _ j
      ∙ ap (λ o. if within lo hi j then o else none) (lookup-firsts (db.blocks f) j);
  cursor-Distinct = λ db f lo hi. keep-Distinct _ _ (firsts-Distinct _);
}
