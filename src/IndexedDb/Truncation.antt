-- ===== src/IndexedDb/Truncation.antt =====
-- Setting a file's length in IndexedDB, `A.fP.bd` of mobile/web/drift_worker.dart.js.
use bojairu.Prelude.{
  ℕ, ◌+◌, ◌*◌, ◌/◌, ◌≤◌, ◌<◌, ◌≡◌, sym, ◌∙◌, ◌&&◌, none, some, List, arith, ltb, leb, if◌then◌else◌,
  length, Option-cases, inl, inr,
}
use bojairu.Prelude.Dict.{nat_Eq}
use bojairu.Bytes.Flat.{resize, length-resize, byte-resize, byte-beyond}
use bojairu.IndexedDb.{block_size}
use bojairu.IndexedDb.Storage.{Database, FileRecord, max_offset, truncate_file, read_file}
use bojairu.IndexedDb.Loading.{Holds, read_file_lem}

module _ (d : Database) where
  -- The blocks and the record after `bd`.
  truncate_file_lem :
      (db : d.Db) (id c : ℕ) (m : FileRecord)
      → d.get_file db id ≡ some m
      → (db' : d.Db) × (truncate_file d db id c ≡ some db')
        × (d.get_file db' id ≡ some (record { name = m.name; file_length = c }))
        × ((k : ℕ)
            → d.get_block db' id k ≡ (
                if ltb c m.file_length
                  && (leb (c / block_size * block_size + 1) k && leb k max_offset)
                then none
                else d.get_block db id k))
  unfolding truncate_file
  truncate_file_lem db id c m h =
      let r : FileRecord = record { name = m.name; file_length = c } in
      let lo = c / block_size * block_size + 1 in
      let cut = if ltb c m.file_length then d.delete_blocks db id lo max_offset else db in
      (
        d.update_file cut id r,
        ground arith,
        ground (arith, d.get_file-update_file cut id id r),
        λ k.
            d.get_block-update_file cut id id k r
            ∙ ground (arith, d.get_block-delete_blocks db id lo max_offset id k),
      )

  -- Lengthening a file that the database holds leaves it holding the file extended by zeros.
  pub truncate_file_grow :
      (db : d.Db) (id c : ℕ) (f : List ℕ)
      → Holds d db id f
      → length f ≤ c
      → (db' : d.Db) × (truncate_file d db id c ≡ some db') × Holds d db' id (resize f c)
  truncate_file_grow db id c f h w =
      let (db', done, there, blocks) = truncate_file_lem db id c h.entry h.is_there in
      let same_block : (k : ℕ) → d.get_block db' id k ≡ d.get_block db id k =
        λ k. ground (arith, blocks k, h.len) in
      (
        db',
        done,
        record {
          entry = record { name = h.entry.name; file_length = c };
          is_there = there;
          len = sym (length-resize f c);
          good = λ k s e.
              let g = h.good k s (sym (same_block k) ∙ e) in
              record {
                size = g.size;
                aligned = g.aligned;
                reached = omega (arith, g.reached, length-resize f c);
              };
          same = λ i. ground (
            arith,
            same_block (i / block_size * block_size),
            h.same i,
            byte-resize f c i,
            byte-beyond f i,
          );
        },
      )

  -- What is held after a cut at `c` and a return to the old length.
  stale-Holds :
      (db db' : d.Db) (id c : ℕ) (f : List ℕ) (n : FileRecord)
      → Holds d db id f
      → c < length f
      → length f ≤ max_offset
      → d.get_file db' id ≡ some (record { name = n.name; file_length = length f })
      → ((k : ℕ)
          → d.get_block db' id k ≡ (
              if leb (c / block_size * block_size + 1) k && leb k max_offset
              then none
              else d.get_block db id k))
      → Holds d db' id (resize (resize f (c / block_size * block_size + block_size)) (length f))
  stale-Holds db db' id c f n h w b there blocks =
      let kept = resize f (c / block_size * block_size + block_size) in
      record {
        entry = record { name = n.name; file_length = length f };
        is_there = there;
        len = sym (length-resize kept (length f));
        good = λ k s e.
            let g = h.good k s (ground (arith, blocks k)) in
            record {
              size = g.size;
              aligned = g.aligned;
              reached = omega (arith, g.reached, length-resize kept (length f));
            };
        same = λ i.
            let k = i / block_size * block_size in
            elim (Option-cases (d.get_block db id k)) [
              | inl e ↦ ground (
                arith,
                blocks k,
                h.same i,
                byte-resize kept (length f) i,
                byte-resize f (c / block_size * block_size + block_size) i,
              )
              | inr (s, e) ↦
                  let g = h.good k s e in
                  ground (
                    arith,
                    g.reached,
                    blocks k,
                    h.same i,
                    byte-resize kept (length f) i,
                    byte-resize f (c / block_size * block_size + block_size) i,
                    byte-beyond f i,
                  )
            ];
      }

  -- If the database holds the file f, cutting it to a shorter length c and setting the old length
  -- again does not clear what was cut off: loading the file gives the old bytes up to the end of
  -- the block that holds the offset c, and zeros from there on.
  pub truncate_file_stale :
      (db : d.Db) (id c : ℕ) (f : List ℕ)
      → Holds d db id f
      → c < length f
      → length f ≤ max_offset
      → (db₁ db₂ : d.Db) × (truncate_file d db id c ≡ some db₁)
        × (truncate_file d db₁ id (length f) ≡ some db₂)
        × (read_file d db₂ id
            ≡ some (resize (resize f (c / block_size * block_size + block_size)) (length f)))
  truncate_file_stale db id c f h w b =
      let n = h.entry in
      let (db₁, done₁, there₁, blocks₁) = truncate_file_lem db id c n h.is_there in
      let (db₂, done₂, there₂, blocks₂) =
        truncate_file_lem db₁ id (length f) (record { name = n.name; file_length = c }) there₁ in
      let blocks : (k : ℕ)
          → d.get_block db₂ id k ≡ (
              if leb (c / block_size * block_size + 1) k && leb k max_offset
              then none
              else d.get_block db id k) =
        λ k. ground (arith, blocks₁ k, blocks₂ k, h.len) in
      (
        db₁,
        db₂,
        done₁,
        done₂,
        read_file_lem d db₂ id _ (stale-Holds db db₂ id c f n h w b there₂ blocks) (
            omega (
              arith,
              length-resize (resize f (c / block_size * block_size + block_size)) (length f),
            )),
      )
