-- ===== src/IndexedDb/Blocks.antt =====
-- The changed blocks of `A.mB` of mobile/web/drift_worker.dart.js: what one round of its loop does
-- to the bytes that the request sees.
use bojairu.Prelude.{
  ℕ, ◌+◌, ◌-◌, ◌*◌, ◌/◌, ◌%◌, ◌≤◌, ◌<◌, min, ◌≡◌, ap, ◌∙◌, ◌&&◌, none, some, List, arith, ltb, leb,
  ◌==◌, if◌then◌else◌, length, take, drop, Option-cases, inl, inr, length-take, length-drop,
}
use bojairu.Prelude.Dict.{lookup, lookup-insert, nat_Eq}
use bojairu.Bytes.{overwrite, zeros}
use bojairu.Bytes.Flat.{
  byte, length-overwrite, byte-overwrite, byte-take, byte-drop, byte-beyond, length-zeros,
  byte-zeros,
}
use bojairu.IndexedDb.{Request, block_size, fresh_block, block_at, update_block, piece}

-- The byte at the file offset `i` as the request sees it.
unfoldable pub view : Request → ℕ → ℕ
view q i = byte (block_at q (i / block_size * block_size)) (i % block_size)

-- Each changed block is whole.
pub record IsWhole (q : Request) : Type 0 where
  pub size : (k : ℕ) (s : List ℕ) → lookup k q.blocks ≡ some s → length s ≡ block_size
  pub aligned : (k : ℕ) (s : List ℕ) → lookup k q.blocks ≡ some s → k % block_size ≡ 0

-- A fresh block over bytes that the file holds from `p` on.
filled_block_lem :
    (r : List ℕ) (p j : ℕ)
    → (length (overwrite (zeros block_size) 0 (take (min block_size (length r - p)) (drop p r)))
        ≡ block_size)
      × (j < block_size
          → byte
              (overwrite (zeros block_size) 0 (take (min block_size (length r - p)) (drop p r)))
              j
            ≡ byte r (p + j))
filled_block_lem r p j =
    let d = take (min block_size (length r - p)) (drop p r) in
    let size : length d ≡ min block_size (length r - p) =
      omega (arith, length-take (min block_size (length r - p)) (drop p r), length-drop p r) in
    let room : 0 + length d ≤ length (zeros block_size) =
      omega (arith, size, length-zeros block_size) in
    (
      length-overwrite (zeros block_size) 0 d room ∙ length-zeros block_size,
      λ h. ground (
        arith,
        size,
        byte-overwrite (zeros block_size) 0 d j room,
        byte-zeros block_size j,
        byte-take (min block_size (length r - p)) (drop p r) j,
        byte-drop p r j,
        byte-beyond r (p + j),
      ),
    )

pub fresh_block_lem :
    (r : List ℕ) (p j : ℕ)
    → (length (fresh_block r p) ≡ block_size)
      × (j < block_size → byte (fresh_block r p) j ≡ byte r (p + j))
unfolding fresh_block
fresh_block_lem r p j = ground (
  arith,
  filled_block_lem r p j,
  length-zeros block_size,
  byte-zeros block_size j,
  byte-beyond r (p + j),
)

length-block_at : (q : Request) (k : ℕ) → IsWhole q → length (block_at q k) ≡ block_size
unfolding block_at
length-block_at q k v = elim (Option-cases (lookup k q.blocks)) [
  | inl e ↦ rw (e, block_at) ((fresh_block_lem q.original k 0).0)
  | inr (s, e) ↦ rw (e, block_at) (v.size k s e)
]

-- Where no block was changed the request sees the original file.
pub view-lookup :
    (q : Request) (i : ℕ)
    → view q i ≡ elim (lookup (i / block_size * block_size) q.blocks) [
      | none ↦ byte q.original i
      | some s ↦ byte s (i % block_size)
    ]
unfolding view block_at
view-lookup q i = ground (
  arith,
  (fresh_block_lem q.original (i / block_size * block_size) (i % block_size)).1,
  same_offset,
)
  where
    same_offset : byte q.original (i / block_size * block_size + i % block_size) ≡ byte q.original i
    same_offset = ap (byte q.original) (omega arith)

block_at-update_block :
    (q : Request) (a b k : ℕ) (c : List ℕ)
    → block_at (update_block q a b c) k
      ≡ (if a == k then overwrite (block_at q a) b c else block_at q k)
unfolding block_at update_block
block_at-update_block q a b k c =
    ground (arith, lookup-insert a k (overwrite (block_at q a) b c) q.blocks)

update_block-IsWhole :
    (q : Request) (p b : ℕ) (c : List ℕ)
    → IsWhole q
    → b + length c ≤ block_size
    → IsWhole (update_block q (p * block_size) b c)
unfolding update_block
update_block-IsWhole q p b c v h =
    let a = p * block_size in
    let whole = length-block_at q a v in
    record {
      size = λ k s e. ground (
        arith,
        lookup-insert a k (overwrite (block_at q a) b c) q.blocks,
        v.size k s,
        whole,
        length-overwrite (block_at q a) b c,
      );
      aligned = λ k s e.
          ground (arith, lookup-insert a k (overwrite (block_at q a) b c) q.blocks, v.aligned k s);
    }

-- Changing one block changes the file at the offsets that the bytes go to, and nowhere else.
view-update_block :
    (q : Request) (p b i : ℕ) (c : List ℕ)
    → IsWhole q
    → b + length c ≤ block_size
    → view (update_block q (p * block_size) b c) i ≡ (
        if leb (p * block_size + b) i && ltb i (p * block_size + b + length c)
        then byte c (i - (p * block_size + b))
        else view q i)
unfolding view
view-update_block q p b i c v h =
    let a = p * block_size in
    let k = i / block_size * block_size in
    ground (
      arith,
      block_at-update_block q a b k c,
      length-block_at q a v,
      byte-overwrite (block_at q a) b c (i % block_size),
    )

-- The piece that goes into the block is not empty, and fits.
pub piece_lem :
    (o n : ℕ)
    → o < block_size
    → 0 < n
    → (0 < piece o n) × (piece o n ≤ n) × (o + piece o n ≤ block_size)
unfolding piece
piece_lem o n h k = ground arith

-- One round of the loop, seen at the offset `i`.
pub round_lem :
    (rq : Request) (q m i : ℕ) (rest : List ℕ)
    → IsWhole rq
    → m ≤ length rest
    → q % block_size + m ≤ block_size
    → IsWhole (update_block rq (q / block_size * block_size) (q % block_size) (take m rest))
      × (view (update_block rq (q / block_size * block_size) (q % block_size) (take m rest)) i
          ≡ (if leb q i && ltb i (q + m) then byte rest (i - q) else view rq i))
round_lem rq q m i rest v h k =
    let p = q / block_size in
    let o = q % block_size in
    let size : length (take m rest) ≡ m = omega (arith, length-take m rest) in
    let fits : o + length (take m rest) ≤ block_size = omega (arith, size) in
    let start : p * block_size + o ≡ q = omega arith in
    (
      update_block-IsWhole rq p o (take m rest) v fits,
      view-update_block rq p o i (take m rest) v fits
          ∙ rw (start, size) (ground (arith, byte-take m rest (i - q))),
    )
