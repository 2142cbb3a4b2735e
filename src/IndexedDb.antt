-- ===== src/IndexedDb.antt =====
-- Files in the browser's IndexedDB, as the database worker keeps them
-- (mobile/web/drift_worker.dart.js): `A.mB` collects writes in blocks of 4096 bytes, and `A.fP`
-- stores and loads those blocks.
pub mod Blocks
pub mod Writes
pub mod Storage
pub mod Saving
pub mod Loading
pub mod Truncation
pub mod Queue
pub mod Mirror
pub mod Disk
mod ListDatabase
mod Examples
use Prim.Native.String.{String}
use bojairu.Prelude.{
  ℕ, zero, suc, ◌+◌, ◌-◌, ◌*◌, ◌/◌, ◌%◌, ◌≤◌, ◌<◌, min, max, ◌≡◌, Bool, true, false, not, ◌&&◌,
  Option, none, some, List, [], ◌∷◌, ltb, leb, ◌==◌, if◌then◌else◌, length, take, drop, replicate,
}
use bojairu.Prelude.Dict.{lookup, insert, nat_Eq}
use bojairu.Bytes.{overwrite, zeros}

abbrev pub block_size : ℕ
block_size = 4096

-- `A.mB`: the file before the writes (`a`), the changed blocks by their offsets (`b`) and the new
-- length (`c`).
pub record Request : Type 0 where
  pub original : List ℕ
  pub blocks : List (ℕ × List ℕ)
  pub new_length : ℕ

-- `new A.mB(m,A.al(t.S,t.p),m.length)`
unfoldable pub new_request : List ℕ → Request
new_request m = record { original = m; blocks = []; new_length = length m }

-- `A.mC`: a block of zeros with what the file holds from the offset `p` on.
unfoldable pub fresh_block : List ℕ → ℕ → List ℕ
fresh_block r p =
    let s = zeros block_size in
    if ltb p (length r) then overwrite s 0 (take (min block_size (length r - p)) (drop p r)) else s

-- The block at the offset `a` (`putIfAbsent`).
unfoldable pub block_at : Request → ℕ → List ℕ
block_at q a = elim (lookup a q.blocks) [ none ↦ fresh_block q.original a | some s ↦ s ]

-- `jt`: the bytes `c` are put into the block at `a`, from its byte `b` on.
unfoldable pub update_block : Request → ℕ → ℕ → List ℕ → Request
update_block q a b c = record q { blocks = insert a (overwrite (block_at q a) b c) q.blocks }

-- The size of the piece of `n` bytes that goes into one block, from its byte `o` on.
unfoldable pub piece : ℕ → ℕ → ℕ
piece o n = if not (o == 0) then min (block_size - o) n else min block_size n

-- The loop of `jL`, at the file offset `q` with the bytes `rest` left. Each round takes a byte at
-- least, so as much fuel as there are bytes is enough.
unfoldable pub write_loop : ℕ → Request → ℕ → List ℕ → Request
write_loop zero rq q rest = rq
write_loop (suc fuel) rq q [] = rq
write_loop (suc fuel) rq q (x ∷ rest) =
    let m = piece (q % block_size) (length (x ∷ rest)) in
    write_loop fuel
      (update_block rq (q / block_size * block_size) (q % block_size) (take m (x ∷ rest))) (q + m)
      (drop m (x ∷ rest))

-- `jL`: the bytes `b` are written at the file offset `a`.
unfoldable pub add_write : Request → ℕ → List ℕ → Request
unfolding write_loop update_block piece
add_write rq a b =
    let rq' = write_loop (length b) rq a b in
    record rq' { new_length = max rq'.new_length (a + length b) }

-- The loop of `A.cR.U`: the writes of one queued operation, in order.
unfoldable pub add_writes : Request → List (ℕ × List ℕ) → Request
add_writes rq [] = rq
add_writes rq ((a, b) ∷ ws) = add_writes (add_write rq a b) ws
