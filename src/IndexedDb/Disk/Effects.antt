-- ===== src/IndexedDb/Disk/Effects.antt =====
-- The ids of the files of `A.d5` of mobile/web/drift_worker.dart.js, and what the creation and the
-- deletion of a file do to the stored files.
use Prim.Native.String.{String}
use text.Mathlib.Text.{◌==◌ as str_eq}
use text.Mathlib.TextEquality.{eq_iff}
use bojairu.Prelude.{
  ℕ, suc, ◌*◌, ◌/◌, ◌≡◌, ◌≢◌, refl, sym, ap, ◌∙◌, Option, none, some, List, [], arith,
  if◌then◌else◌, Option-cases, inl, inr,
}
use bojairu.Prelude.Dict.{lookup, insert, remove, lookup-insert, lookup-remove, nat_Eq, string_Eq}
use bojairu.IndexedDb.{block_size}
use bojairu.IndexedDb.Storage.{Database, FileRecord, drop_file, create_file, max_offset}
use bojairu.IndexedDb.Loading.{Holds}
use bojairu.IndexedDb.Queue.Order.{Store, Change, Creates, Deletes}
use bojairu.IndexedDb.Disk.{Names, Disk, file_id, run_delete, run_create}
use bojairu.IndexedDb.Disk.Naming.{name_of, named_file}
use bojairu.IndexedDb.Disk.Keeping.{Keeps, Changed, Changed-Keeps}

module _ (d : Database) (n : Names d) where
  -- `bn` gives the id of a stored file.
  pub file_id_lem :
      (t : Disk d n) (s : Store) (p : String) (i : ℕ)
      → Keeps d n t s
      → n.key_of t.db p ≡ some i
      → (ids : List (String × ℕ)) × (file_id d n t p ≡ some (i, record t { ids = ids }))
        × ((q : String) (j : ℕ) → lookup q ids ≡ some j → n.key_of t.db q ≡ some j)
  unfolding file_id
  file_id_lem t s p i v h = elim (Option-cases (lookup p t.ids)) [
    | inl e ↦ (
      insert p i t.ids,
      ground (arith, e, h),
      λ q j f. ground (arith, f, lookup-insert p q i t.ids, v.known q j, h, eq_iff p q),
    )
    | inr (j, e) ↦ (t.ids, ground (arith, e, h, v.known p j e), v.known)
  ]

  drop_file-Changed :
      (t : Disk d n) (s : Store) (p : String) (i : ℕ)
      → Keeps d n t s
      → n.key_of t.db p ≡ some i
      → Changed d n t.db (drop_file d t.db i) p i × (n.key_of (drop_file d t.db i) p ≡ none)
  unfolding drop_file
  drop_file-Changed t s p i v h =
      let db₁ = d.delete_blocks t.db i 0 max_offset in
      let (r, there, same) = named_file d n t.db i p (v.named p i h) in
      let there₁ : d.get_file db₁ i ≡ some r =
        d.get_file-delete_blocks t.db i 0 max_offset i ∙ there in
      let keys = λ (q : String). n.key_of-delete_file db₁ i r q there₁ in
      let keys₁ = λ (q : String). n.key_of-delete_blocks t.db i 0 max_offset q in
      let next : n.next_id (d.delete_file db₁ i) ≡ n.next_id t.db =
        n.next_id-delete_file db₁ i ∙ n.next_id-delete_blocks t.db i 0 max_offset in
      let gone : n.key_of (d.delete_file db₁ i) p ≡ none =
        ground (arith, keys p, same, eq_iff p p) in
      (
        record {
          keys = λ q m. ground (arith, keys q, keys₁ q, same, eq_iff p q, m);
          files = λ j m. ground (
            arith,
            n.get_file-delete_file db₁ i j,
            d.get_file-delete_blocks t.db i 0 max_offset j,
          );
          blocks = λ j k m. ground (
            arith,
            n.get_block-delete_file db₁ i j k,
            d.get_block-delete_blocks t.db i 0 max_offset j k,
          );
          next = omega (arith, next);
          whose = inl (v.named p i h);
          here = λ j e. absurd (ground (arith, gone, e));
          live_here = omega (arith, next, v.live p i (v.named p i h));
        },
        gone,
      )

  -- `A.dz.U`: a stored file is deleted.
  pub run_delete_lem :
      (t : Disk d n) (s u : Store) (p : String)
      → Keeps d n t s
      → Change p Deletes s u
      → (t' : Disk d n) × (run_delete d n t p ≡ some t') × Keeps d n t' u
  run_delete_lem t s u p v does = elim (Option-cases (s p)) [
    | inl e ↦ absurd ((does.0).0 e)
    | inr (f, e) ↦
        let (i, key, held) = v.present p f e in
        let (ids, found, known) = file_id_lem t s p i v key in
        let (c, gone) = drop_file-Changed t s p i v key in
        let t' : Disk d n = record { ids = remove p ids; db = drop_file d t.db i } in
        (
          t',
          rw (found, run_delete) refl,
          Changed-Keeps d n t t' s u p i v c (does.1)
              (λ q j h. removed_known q j (c.keys q) (known q j) (lookup-remove p q ids) h)
              (λ f' h. absurd (ground (arith, h, (does.0).1))) (λ h. gone),
        )
  ]
    where
      removed_known :
          (q : String) (j : ℕ) {a b c k : Option ℕ}
          → (q ≢ p → k ≡ b)
          → (c ≡ some j → b ≡ some j)
          → a ≡ (if str_eq p q then none else c)
          → a ≡ some j
          → k ≡ some j
      removed_known q j x y e h = ground (arith, e, h, eq_iff p q)

  create_file-Changed :
      (t : Disk d n) (s : Store) (p : String)
      → Keeps d n t s
      → n.key_of t.db p ≡ none
      → ((create_file d t.db p).1 ≡ n.next_id t.db)
        × Changed d n t.db ((create_file d t.db p).0) p (n.next_id t.db)
        × (n.key_of ((create_file d t.db p).0) p ≡ some (n.next_id t.db))
        × Holds d ((create_file d t.db p).0) (n.next_id t.db) []
  unfolding create_file
  create_file-Changed t s p v h =
      let r : FileRecord = record { name = p; file_length = 0 } in
      let i = n.next_id t.db in
      let keys = λ (q : String). n.key_of-add_file t.db r q h in
      let files = λ (j : ℕ). n.get_file-add_file t.db r j h in
      let blocks = λ (j k : ℕ). n.get_block-add_file t.db r j k h in
      let next : n.next_id ((d.add_file t.db r).0) ≡ suc i = n.next_id-add_file t.db r h in
      let there : d.get_file ((d.add_file t.db r).0) i ≡ some r = ground (arith, files i) in
      let key : n.key_of ((d.add_file t.db r).0) p ≡ some i = ground (arith, keys p, eq_iff p p) in
      (
        n.add_file-next_id t.db r,
        record {
          keys = λ q m. ground (arith, keys q, eq_iff p q, m);
          files = λ j m. ground (arith, files j);
          blocks = λ j k m. blocks j k;
          next = omega (arith, next);
          whose = inr (omega arith);
          here = λ j e.
              let same : i ≡ j = ground (arith, key, e) in rw (← same) (rw (there, name_of) refl);
          live_here = omega (arith, next);
        },
        key,
        record {
          entry = r;
          is_there = there;
          len = refl;
          good = λ k b e. absurd (omega (arith, v.live_block i k b (sym (blocks i k) ∙ e)));
          same = λ j.
              let k = j / block_size * block_size in
              elim (Option-cases (d.get_block t.db i k)) [
                | inl e ↦ rw (blocks i k ∙ e) refl
                | inr (b, e) ↦ absurd (omega (arith, v.live_block i k b e))
              ];
        },
      )

  -- `A.cH.U`: a file is created that is not stored.
  pub run_create_lem :
      (t : Disk d n) (s u : Store) (p : String)
      → Keeps d n t s
      → Change p Creates s u
      → Keeps d n (run_create d n t p) u
  run_create_lem t s u p v does =
      let (same, c, key, held) = create_file-Changed t s p v (v.absent p ((does.0).0)) in
      Changed-Keeps d n t (run_create d n t p) s u p (n.next_id t.db) v c (does.1)
        (λ q j h.
          added_known q j (c.keys q) (v.known q j)
            (lookup-insert p q ((create_file d t.db p).1) t.ids) h
            (λ e. ap (n.key_of ((create_file d t.db p).0)) e ∙ key) same)
        (λ f h. (n.next_id t.db, key, let e : f ≡ [] = ground (arith, h, (does.0).1) in rw e held))
        (λ h. absurd (ground (arith, h, (does.0).1)))
    where
      added_known :
          (q : String) (j : ℕ) {a b c k : Option ℕ} {x i : ℕ}
          → (q ≢ p → k ≡ b)
          → (c ≡ some j → b ≡ some j)
          → a ≡ (if str_eq p q then some x else c)
          → a ≡ some j
          → (q ≡ p → k ≡ some i)
          → x ≡ i
          → k ≡ some j
      added_known q j x y e h k w = ground (arith, e, h, w, eq_iff p q)
