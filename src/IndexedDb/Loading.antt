-- ===== src/IndexedDb/Loading.antt =====
-- When the database of mobile/web/drift_worker.dart.js holds a file, and how `A.fP.bB` loads it.
use bojairu.Prelude.{
  ℕ, ◌+◌, ◌-◌, ◌*◌, ◌/◌, ◌%◌, ◌≤◌, ◌<◌, min, ◌≡◌, refl, sym, ap, ◌∙◌, none, some, List, [], ◌∷◌,
  arith, ◌==◌, ==_iff, if◌then◌else◌, length, take, inl, inr, length-take, ext_of_get_or,
  Bool-cases,
}
use bojairu.Prelude.Dict.{lookup, nat_Eq}
use bojairu.Bytes.{overwrite, zeros}
use bojairu.Bytes.Flat.{byte, length-overwrite, byte-overwrite, byte-take, length-zeros, byte-zeros}
use bojairu.IndexedDb.{block_size}
use bojairu.IndexedDb.Storage.{Database, FileRecord, Distinct, max_offset, copy_blocks, read_file}

-- The byte at the file offset `i` under the entries of a cursor; `old` where there is no block.
unfoldable pub stored_byte : List (ℕ × List ℕ) → ℕ → ℕ → ℕ
stored_byte m i old = elim (lookup (i / block_size * block_size) m) [
  | none ↦ old
  | some s ↦ byte s (i % block_size)
]

-- A block that a file of the length `e` can have at the offset `k`.
pub record IsBlock (e k : ℕ) (s : List ℕ) : Type 0 where
  pub size : length s ≡ block_size
  pub aligned : k % block_size ≡ 0
  pub reached : k ≤ e

lookup-tail :
    (k j : ℕ) (s t : List ℕ) (m : List (ℕ × List ℕ))
    → lookup k m ≡ none
    → lookup j m ≡ some t
    → lookup j ((k, s) ∷ m) ≡ some t
unfolding lookup
lookup-tail k j s t m h e = elim (Bool-cases (k == j)) [
  | inl p ↦ let q : k ≡ j = (==_iff k j).0 p in cc (ap (λ x. lookup x m) q)
  | inr p ↦ rw p e
]

lookup-head : (k : ℕ) (s : List ℕ) (m : List (ℕ × List ℕ)) → lookup k ((k, s) ∷ m) ≡ some s
unfolding lookup
lookup-head k s m = ground arith

-- One block is copied.
copied_block :
    (e k i : ℕ) (s l : List ℕ)
    → IsBlock e k s
    → length l ≡ e
    → i < e
    → (length (overwrite l k (take (min block_size (e - k)) s)) ≡ e)
      × (byte (overwrite l k (take (min block_size (e - k)) s)) i
          ≡ (if k == i / block_size * block_size then byte s (i % block_size) else byte l i))
copied_block e k i s l v h w =
    let d = take (min block_size (e - k)) s in
    let size : length d ≡ min block_size (e - k) =
      omega (arith, length-take (min block_size (e - k)) s, v.size) in
    let room : k + length d ≤ length l = omega (arith, size, h, v.reached) in
    let al = v.aligned in
    (
      length-overwrite l k d room ∙ h,
      ground (
        arith,
        size,
        al,
        byte-overwrite l k d i room,
        byte-take (min block_size (e - k)) s (i - k),
        same_place,
      ),
    )
  where
    same_place : k ≡ i / block_size * block_size → byte s (i - k) ≡ byte s (i % block_size)
    same_place p = ap (byte s) (omega arith)

length-copied_block :
    (e k : ℕ) (s l : List ℕ)
    → IsBlock e k s
    → length l ≡ e
    → length (overwrite l k (take (min block_size (e - k)) s)) ≡ e
length-copied_block e k s l v h =
    length-overwrite l k (take (min block_size (e - k)) s)
      (omega (arith, length-take (min block_size (e - k)) s, v.size, v.reached, h))
    ∙ h

stored_byte_step :
    (k i old new : ℕ) (s : List ℕ) (m : List (ℕ × List ℕ))
    → lookup k m ≡ none
    → new ≡ (if k == i / block_size * block_size then byte s (i % block_size) else old)
    → stored_byte m i new ≡ stored_byte ((k, s) ∷ m) i old
unfolding stored_byte
stored_byte_step k i old new s m h e = elim (Bool-cases (k == i / block_size * block_size)) [
  | inl p ↦
      let q : i / block_size * block_size ≡ k = sym ((==_iff _ _).0 p) in
      rw (q, stored_byte) (rw (h, lookup-head k s m, stored_byte) (rw p at e))
  | inr p ↦
      let other : lookup (i / block_size * block_size) ((k, s) ∷ m)
          ≡ lookup (i / block_size * block_size) m =
        unfold lookup in rw p refl in
      rw (other, stored_byte) (rw (rw p at e))
]

-- All blocks are copied.
copy_blocks_lem :
    (e : ℕ) (l : List ℕ) (m : List (ℕ × List ℕ))
    → Distinct m
    → ((k : ℕ) (s : List ℕ) → lookup k m ≡ some s → IsBlock e k s)
    → length l ≡ e
    → (l' : List ℕ) × (copy_blocks e l m ≡ some l')
      × (length l' ≡ e)
      × ((i : ℕ) → i < e → byte l' i ≡ stored_byte m i (byte l i))
unfolding copy_blocks
copy_blocks_lem e l [] dist good h = (l, refl, h, λ i k. unfold lookup stored_byte in refl)
copy_blocks_lem e l ((k, s) ∷ m) dist good h =
    let b = good k s (lookup-head k s m) in
    let l₁ = overwrite l k (take (min block_size (e - k)) s) in
    let (l', done, len, bytes) =
      copy_blocks_lem e l₁ m (dist.1) (λ j t p. good j t (lookup-tail k j s t m (dist.0) p))
        (length-copied_block e k s l b h) in
    (
      l',
      ground (arith, done, b.reached, b.size),
      len,
      λ i w.
          bytes i w
          ∙ stored_byte_step k i (byte l i) (byte l₁ i) s m (dist.0)
              ((copied_block e k i s l b h w).1),
    )

module _ (d : Database) where
  -- The database holds the file `f` under the id: its length is recorded, its blocks are whole and
  -- begin within the file, and the bytes are those of the file, with zeros behind its end.
  pub record Holds (db : d.Db) (id : ℕ) (f : List ℕ) : Type 0 where
    pub entry : FileRecord
    pub is_there : d.get_file db id ≡ some entry
    pub len : entry.file_length ≡ length f
    pub good : (k : ℕ) (s : List ℕ) → d.get_block db id k ≡ some s → IsBlock (length f) k s
    pub same :
        (i : ℕ)
        → elim (d.get_block db id (i / block_size * block_size)) [
          | none ↦ 0
          | some s ↦ byte s (i % block_size)
        ]
          ≡ byte f i

  cursor-get_block :
      (db : d.Db) (id k : ℕ) (s : List ℕ)
      → lookup k (d.cursor db id 0 max_offset) ≡ some s
      → d.get_block db id k ≡ some s
  cursor-get_block db id k s h = ground (arith, d.lookup-cursor db id 0 max_offset k)

  -- Within the range of the cursor the entries are the stored blocks.
  stored_byte-cursor :
      (db : d.Db) (id i old : ℕ)
      → i ≤ max_offset
      → stored_byte (d.cursor db id 0 max_offset) i old
        ≡ elim (d.get_block db id (i / block_size * block_size)) [
          | none ↦ old
          | some s ↦ byte s (i % block_size)
        ]
  unfolding stored_byte
  stored_byte-cursor db id i old h =
      ground (arith, d.lookup-cursor db id 0 max_offset (i / block_size * block_size))

  -- If the database holds the file f in blocks, and f is no longer than the largest offset of the
  -- key ranges, loading the file gives f.
  pub read_file_lem :
      (db : d.Db) (id : ℕ) (f : List ℕ)
      → Holds db id f
      → length f ≤ max_offset
      → read_file d db id ≡ some f
  unfolding read_file
  read_file_lem db id f h b =
      let e = h.entry.file_length in
      let m = d.cursor db id 0 max_offset in
      let (l', done, len, bytes) =
        copy_blocks_lem e (zeros e) m (d.cursor-Distinct db id 0 max_offset)
          (λ k s p. rw h.len (h.good k s (cursor-get_block db id k s p))) (length-zeros e) in
      let same : l' ≡ f = ext_of_get_or l' f 0 (len ∙ h.len) (λ i w.
        bytes i (omega (arith, len))
        ∙ rw (byte-zeros e i, stored_byte-cursor db id i 0 (omega (arith, len, h.len)))
            (h.same i)) in
      rw (h.is_there, read_file) (done ∙ ap some same)
