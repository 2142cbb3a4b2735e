-- ===== src/IndexedDb/Disk/Naming.antt =====
-- What storing the blocks and the length of a file (mobile/web/drift_worker.dart.js, `A.fP.b5`)
-- leaves alone.
use Prim.Native.String.{String}
use mathlib.Core.Path.{subst}
use bojairu.Prelude.{
  ℕ, ◌≡◌, refl, sym, ap, ◌∙◌, Option, none, some, List, [], ◌∷◌, arith, ◌==◌, ==_iff, Bool-cases,
  Option-cases, inl, inr,
}
use bojairu.Prelude.Dict.{lookup, nat_Eq, string_Eq}
use bojairu.IndexedDb.{Request}
use bojairu.IndexedDb.Storage.{Database, FileRecord, put_blocks, sorted_keys, write_back}
use bojairu.IndexedDb.Disk.{Names}

module _ (d : Database) (n : Names d) where
  -- What a write of blocks and lengths leaves alone: the index, the key generator, and the names of
  -- the files.
  abbrev pub name_of : d.Db → ℕ → Option String
  name_of db i = elim (d.get_file db i) [ none ↦ none | some r ↦ some r.name ]

  pub record SameNames (db db' : d.Db) : Type 0 where
    pub keys : (p : String) → n.key_of db' p ≡ n.key_of db p
    pub next : n.next_id db' ≡ n.next_id db
    pub names : (i : ℕ) → name_of db' i ≡ name_of db i

  pub SameNames-refl : (db : d.Db) → SameNames db db
  SameNames-refl db = record { keys = λ p. refl; next = refl; names = λ i. refl }

  put_blocks-SameNames :
      (db db' : d.Db) (i : ℕ) (m : List (ℕ × List ℕ)) (l : List ℕ)
      → put_blocks d db i m l ≡ some db'
      → SameNames db db'
  unfolding put_blocks
  put_blocks-SameNames db db' i m [] h =
      let e : db ≡ db' = ground (arith, h) in
      record {
        keys = λ p. ap (λ x. n.key_of x p) (sym e);
        next = ap (λ x. n.next_id x) (sym e);
        names = λ j. ap (λ x. name_of x j) (sym e);
      }
  put_blocks-SameNames db db' i m (k ∷ l) h = elim (Option-cases (lookup k m)) [
    | inl e ↦ absurd (ground (arith, h, e))
    | inr (s, e) ↦
        let rest =
          put_blocks-SameNames (d.put_block db i k s) db' i m l (rw (e, put_blocks) at h) in
        record {
          keys = λ p. rest.keys p ∙ n.key_of-put_block db i k s p;
          next = rest.next ∙ n.next_id-put_block db i k s;
          names = λ j. rest.names j ∙ rw (d.get_file-put_block db i k j s, name_of) refl;
        }
  ]

  pub named_file :
      (db : d.Db) (i : ℕ) (a : String)
      → name_of db i ≡ some a
      → (r : FileRecord) × (d.get_file db i ≡ some r) × (r.name ≡ a)
  named_file db i a h = elim (Option-cases (d.get_file db i)) [
    | inl e ↦ absurd (ground (arith, h, e))
    | inr (r, e) ↦ (r, e, ground (arith, h, e))
  ]

  pub update_file-SameNames :
      (db db₁ : d.Db) (i : ℕ) (r : FileRecord)
      → SameNames db db₁
      → name_of db i ≡ some r.name
      → SameNames db (d.update_file db₁ i r)
  update_file-SameNames db db₁ i r v h =
      let (r', there, same) = named_file db₁ i r.name (v.names i ∙ h) in
      record {
        keys = λ p. n.key_of-update_file db₁ i r r' p there same ∙ v.keys p;
        next = n.next_id-update_file db₁ i r ∙ v.next;
        names = λ j. ground (arith, d.get_file-update_file db₁ i j r, v.names j, h, ==_iff i j);
      }

  pub write_back-SameNames :
      (db db' : d.Db) (i : ℕ) (rq : Request) → write_back d db i rq ≡ some db' → SameNames db db'
  unfolding write_back
  write_back-SameNames db db' i rq h = elim (Option-cases (d.get_file db i)) [
    | inl e ↦ absurd (ground (arith, h, e))
    | inr (r, e) ↦ elim (Option-cases (put_blocks d db i rq.blocks (sorted_keys rq.blocks))) [
      | inl f ↦ absurd (ground (arith, h, e, f))
      | inr (db₁, f) ↦
          let v = put_blocks-SameNames db db₁ i rq.blocks (sorted_keys rq.blocks) f in
          let r' : FileRecord = record { name = r.name; file_length = rq.new_length } in
          let w = update_file-SameNames db db₁ i r' v (rw (e, name_of) refl) in
          elim (Bool-cases (rq.new_length == r.file_length)) [
            | inl b ↦ subst (λ (x : d.Db). SameNames db x) (ground (arith, h, e, f, b)) v
            | inr b ↦ subst (λ (x : d.Db). SameNames db x) (ground (arith, h, e, f, b)) w
          ]
    ]
  ]
