-- ===== src/IndexedDb/Saving.antt =====
-- `A.fP.b5` of mobile/web/drift_worker.dart.js: what the database holds after a request was written.
use bojairu.Prelude.{
  ℕ, ◌*◌, ◌/◌, ◌≤◌, ◌≡◌, refl, ◌∙◌, Bool, true, false, not, ◌&&◌, ◌||◌, none, some, List, [], ◌∷◌,
  arith, ◌==◌, if◌then◌else◌, length, ◌≢◌, Option-cases, inl, inr,
}
use bojairu.Prelude.Dict.{lookup, nat_Eq}
use bojairu.Bytes.Flat.{write_at, length-write_at}
use bojairu.IndexedDb.{Request, block_size, new_request, add_write, add_writes}
use bojairu.IndexedDb.Blocks.{view-lookup}
use bojairu.IndexedDb.Writes.{
  Stands, write_all_at, new_request-Stands, original-add_write, add_writes_refines,
}
use bojairu.IndexedDb.Storage.{
  Database, FileRecord, insert_key, sorted_keys, put_blocks, write_back, read_file, max_offset,
}
use bojairu.IndexedDb.Loading.{Holds, read_file_lem}

elem : ℕ → List ℕ → Bool
elem k [] = false
elem k (j ∷ l) = k == j || elem k l

elem-insert_key : (k j : ℕ) (l : List ℕ) → elem k (insert_key j l) ≡ (k == j || elem k l)
unfolding elem insert_key
elem-insert_key k j [] = refl
elem-insert_key k j (i ∷ l) = ground (arith, elem-insert_key k j l)

-- The sorted keys are the keys of the blocks.
elem-sorted_keys :
    (k : ℕ) (m : List (ℕ × List ℕ))
    → elem k (sorted_keys m) ≡ elim (lookup k m) [ none ↦ false | some _ ↦ true ]
unfolding sorted_keys lookup
elem-sorted_keys k [] = unfold elem in refl
elem-sorted_keys k ((j, s) ∷ m) =
    ground (arith, elem-insert_key k j (sorted_keys m), elem-sorted_keys k m)

module _ (d : Database) where
  -- The stored blocks after the blocks at the keys `l` were put.
  put_blocks_lem :
      (db : d.Db) (id : ℕ) (m : List (ℕ × List ℕ)) (l : List ℕ)
      → ((k : ℕ) → elem k l ≡ true → (s : List ℕ) × (lookup k m ≡ some s))
      → (db' : d.Db) × (put_blocks d db id m l ≡ some db')
        × ((g : ℕ) → d.get_file db' g ≡ d.get_file db g)
        × ((g k : ℕ)
            → d.get_block db' g k
              ≡ (if id == g && elem k l then lookup k m else d.get_block db g k))
  unfolding put_blocks elem
  put_blocks_lem db id m [] h = (db, refl, λ g. refl, λ g k. ground arith)
  put_blocks_lem db id m (j ∷ l) h =
      let (s, found) = h j (ground arith) in
      let (db', done, files, blocks) =
        put_blocks_lem (d.put_block db id j s) id m l (λ k e. h k (ground arith)) in
      (
        db',
        rw (found, put_blocks) done,
        λ g. files g ∙ d.get_file-put_block db id j g s,
        λ g k. ground (arith, blocks g k, d.get_block-put_block db id j g k s, found),
      )

  -- The blocks of a request, put at their sorted keys, are what the request has for each offset.
  put_request_lem :
      (db : d.Db) (id : ℕ) (m : List (ℕ × List ℕ))
      → (db' : d.Db) × (put_blocks d db id m (sorted_keys m) ≡ some db')
        × ((g : ℕ) → d.get_file db' g ≡ d.get_file db g)
        × ((g k : ℕ)
            → d.get_block db' g k ≡ (
                if id == g
                then elim (lookup k m) [ none ↦ d.get_block db g k | some s ↦ some s ]
                else d.get_block db g k))
  put_request_lem db id m =
      let (db', done, files, blocks) =
        put_blocks_lem db id m (sorted_keys m) (λ k e. bound k (elem-sorted_keys k m) e) in
      (db', done, files, λ g k. ground (arith, blocks g k, elem-sorted_keys k m))
    where
      bound :
          (k : ℕ)
          → elem k (sorted_keys m) ≡ elim (lookup k m) [ none ↦ false | some _ ↦ true ]
          → elem k (sorted_keys m) ≡ true
          → (s : List ℕ) × (lookup k m ≡ some s)
      bound k p e = ground arith

  -- What `b5` leaves for the other files.
  abbrev pub SameElsewhere : ℕ → d.Db → d.Db → Type 0
  SameElsewhere id db db' =
      ((g : ℕ) → id ≢ g → d.get_file db' g ≡ d.get_file db g)
      × ((g k : ℕ) → id ≢ g → d.get_block db' g k ≡ d.get_block db g k)

  -- The last step of `b5`.
  finish : d.Db → ℕ → FileRecord → ℕ → d.Db
  finish db id n c =
      if not (c == n.file_length)
      then d.update_file db id (record { name = n.name; file_length = c })
      else db

  finish_lem :
      (db : d.Db) (id c g k : ℕ) (n : FileRecord)
      → d.get_file db id ≡ some n
      → (d.get_block (finish db id n c) g k ≡ d.get_block db g k)
        × (d.get_file (finish db id n c) g ≡ (
            if id == g then some (record { name = n.name; file_length = c }) else d.get_file db g))
  unfolding finish
  finish_lem db id c g k n h = ground (
    arith,
    d.get_block-update_file db id g k (record { name = n.name; file_length = c }),
    d.get_file-update_file db id g (record { name = n.name; file_length = c }),
  )

  write_back-finish :
      (db db₁ : d.Db) (id : ℕ) (rq : Request) (n : FileRecord)
      → d.get_file db id ≡ some n
      → put_blocks d db id rq.blocks (sorted_keys rq.blocks) ≡ some db₁
      → write_back d db id rq ≡ some (finish db₁ id n rq.new_length)
  unfolding write_back finish
  write_back-finish db db₁ id rq n h e = ground arith

  -- The database with the blocks of the request and its length holds the request's file.
  saved-Holds :
      (db db' : d.Db) (id : ℕ) (rq : Request) (f : List ℕ) (n : FileRecord)
      → Holds d db id rq.original
      → Stands rq f
      → length rq.original ≤ length f
      → d.get_file db' id ≡ some (record { name = n.name; file_length = rq.new_length })
      → ((k : ℕ)
          → d.get_block db' id k
            ≡ elim (lookup k rq.blocks) [ none ↦ d.get_block db id k | some s ↦ some s ])
      → Holds d db' id f
  saved-Holds db db' id rq f n h v w there blocks = record {
    entry = record { name = n.name; file_length = rq.new_length };
    is_there = there;
    len = v.len;
    good = λ k s e. elim (Option-cases (lookup k rq.blocks)) [
      | inl p ↦
          let g = h.good k s (ground (arith, blocks k)) in
          record { size = g.size; aligned = g.aligned; reached = omega (arith, g.reached) }
      | inr (t, p) ↦
          let q : t ≡ s = ground (arith, blocks k) in
          rw (← q) (record {
            size = v.whole.size k t p;
            aligned = v.whole.aligned k t p;
            reached = v.reached k t p;
          })
    ];
    same = λ i.
        ground (arith, blocks (i / block_size * block_size), view-lookup rq i, v.same i, h.same i);
  }

  -- `b5` with a request that started from the file in the database succeeds, leaves the database with
  -- the file that the request stands for, and changes no other file.
  pub write_back_lem :
      (db : d.Db) (id : ℕ) (rq : Request) (f : List ℕ)
      → Holds d db id rq.original
      → Stands rq f
      → length rq.original ≤ length f
      → (db' : d.Db) × (write_back d db id rq ≡ some db')
        × Holds d db' id f
        × SameElsewhere id db db'
  write_back_lem db id rq f h v w =
      let n = h.entry in
      let c = rq.new_length in
      let (db₁, done, files, blocks) = put_request_lem db id rq.blocks in
      let there : d.get_file db₁ id ≡ some n = files id ∙ h.is_there in
      let db₂ = finish db₁ id n c in
      let ends = λ (g k : ℕ). finish_lem db₁ id c g k n there in
      (
        db₂,
        write_back-finish db db₁ id rq n h.is_there done,
        saved-Holds db db₂ id rq f n h v w ((ends id 0).1 ∙ ground arith)
            (λ k. (ends id k).0 ∙ ground (arith, blocks id k)),
        (
          λ g e. ground (arith, (ends g 0).1, files g),
          λ g k e. ground (arith, (ends g k).0, blocks g k),
        ),
      )

length-write_all_at : (f : List ℕ) (ws : List (ℕ × List ℕ)) → length f ≤ length (write_all_at f ws)
unfolding write_all_at
length-write_all_at f [] = omega arith
length-write_all_at f ((a, b) ∷ ws) =
    omega (arith, length-write_all_at (write_at f a b) ws, length-write_at f a b)

original-add_writes :
    (q : Request) (ws : List (ℕ × List ℕ)) → (add_writes q ws).original ≡ q.original
unfolding add_writes
original-add_writes q [] = refl
original-add_writes q ((a, b) ∷ ws) =
    original-add_writes (add_write q a b) ws ∙ original-add_write q a b

-- A request that has collected writes to the file in the database is stored as the file with these
-- writes, however long it is.
pub save_lem :
    (d : Database) (db : d.Db) (id : ℕ) (f : List ℕ) (ws : List (ℕ × List ℕ))
    → Holds d db id f
    → (db' : d.Db) × (write_back d db id (add_writes (new_request f) ws) ≡ some db')
      × Holds d db' id (write_all_at f ws)
      × SameElsewhere d id db db'
save_lem d db id f ws h =
    let rq = add_writes (new_request f) ws in
    let start : rq.original ≡ f =
      original-add_writes (new_request f) ws ∙ (unfold new_request in refl) in
    write_back_lem d db id rq (write_all_at f ws) (rw start h)
      (add_writes_refines (new_request f) f ws (new_request-Stands f))
      (rw start (length-write_all_at f ws))

-- If the database holds the file f, storing a request that has collected any list of writes
-- succeeds, the database then holds f with those writes made in their order, loading the file gives
-- exactly these bytes, and no other file is touched. The resulting file is no longer than the
-- largest offset of the key ranges.
pub load-save :
    (d : Database) (db : d.Db) (id : ℕ) (f : List ℕ) (ws : List (ℕ × List ℕ))
    → Holds d db id f
    → length (write_all_at f ws) ≤ max_offset
    → (db' : d.Db) × (write_back d db id (add_writes (new_request f) ws) ≡ some db')
      × Holds d db' id (write_all_at f ws)
      × (read_file d db' id ≡ some (write_all_at f ws))
      × SameElsewhere d id db db'
load-save d db id f ws h b =
    let (db', done, held, others) = save_lem d db id f ws h in
    (db', done, held, read_file_lem d db' id (write_all_at f ws) held b, others)
