-- ===== src/IndexedDb/Writes.antt =====
-- The writes that `A.mB` of mobile/web/drift_worker.dart.js collects, as a flat file.
use bojairu.Prelude.{
  ℕ, zero, suc, ◌+◌, ◌-◌, ◌*◌, ◌/◌, ◌%◌, ◌≤◌, ◌≡◌, refl, ap, ◌∙◌, ◌&&◌, some, List, [], ◌∷◌, arith,
  ltb, leb, ==_iff, if◌then◌else◌, length, take, drop, length-drop,
}
use bojairu.Prelude.Dict.{lookup, lookup-insert, nat_Eq}
use bojairu.Bytes.{overwrite}
use bojairu.Bytes.Flat.{byte, byte-drop, write_at, length-write_at, byte-write_at}
use bojairu.IndexedDb.{
  Request, block_size, new_request, block_at, update_block, piece, write_loop, add_write,
  add_writes,
}
use bojairu.IndexedDb.Blocks.{view, IsWhole, fresh_block_lem, piece_lem, round_lem}

-- The bytes of the first round and those of the later ones.
join_pieces :
    (bytes : List ℕ) (q m i old new : ℕ)
    → m ≤ length bytes
    → new ≡ (if leb q i && ltb i (q + m) then byte bytes (i - q) else old)
    → (if leb (q + m) i && ltb i (q + m + length (drop m bytes))
        then byte (drop m bytes) (i - (q + m))
        else new)
      ≡ (if leb q i && ltb i (q + length bytes) then byte bytes (i - q) else old)
join_pieces bytes q m i old new h e =
    ground (arith, length-drop m bytes, byte-drop m bytes (i - (q + m)), again)
  where
    again : q + m ≤ i → byte bytes (m + (i - (q + m))) ≡ byte bytes (i - q)
    again k = ap (byte bytes) (omega arith)

-- The whole loop, for every fuel that is at least the number of bytes.
write_loop_lem :
    (fuel : ℕ) (rq : Request) (q i : ℕ) (rest : List ℕ)
    → IsWhole rq
    → length rest ≤ fuel
    → IsWhole (write_loop fuel rq q rest)
      × (view (write_loop fuel rq q rest) i
          ≡ (if leb q i && ltb i (q + length rest) then byte rest (i - q) else view rq i))
unfolding write_loop
write_loop_lem zero rq q i [] v h = (v, ground arith)
write_loop_lem zero rq q i (x ∷ rest) v h = absurd (omega arith)
write_loop_lem (suc fuel) rq q i [] v h = (v, ground arith)
write_loop_lem (suc fuel) rq q i (x ∷ rest) v h =
    let bytes : List ℕ = x ∷ rest in
    let m = piece (q % block_size) (length bytes) in
    let facts = piece_lem (q % block_size) (length bytes) (omega arith) (omega arith) in
    let step = round_lem rq q m i bytes v (facts.1) (facts.2) in
    let more =
      write_loop_lem fuel
        (update_block rq (q / block_size * block_size) (q % block_size) (take m bytes)) (q + m) i
        (drop m bytes) (step.0) (omega (arith, length-drop m bytes, facts)) in
    (more.0, more.1 ∙ join_pieces bytes q m i (view rq i) _ (facts.1) (step.1))

write_loop_keeps :
    (fuel : ℕ) (rq : Request) (q : ℕ) (rest : List ℕ)
    → ((write_loop fuel rq q rest).original ≡ rq.original)
      × ((write_loop fuel rq q rest).new_length ≡ rq.new_length)
unfolding write_loop update_block
write_loop_keeps zero rq q rest = (refl, refl)
write_loop_keeps (suc fuel) rq q [] = (refl, refl)
write_loop_keeps (suc fuel) rq q (x ∷ rest) =
    let m = piece (q % block_size) (length (x ∷ rest)) in
    write_loop_keeps fuel
      (update_block rq (q / block_size * block_size) (q % block_size) (take m (x ∷ rest))) (q + m)
      (drop m (x ∷ rest))

pub original-add_write :
    (q : Request) (a : ℕ) (b : List ℕ) → (add_write q a b).original ≡ q.original
unfolding add_write
original-add_write q a b = (write_loop_keeps (length b) q a b).0

-- No block begins behind the offset `n`.
abbrev Reaches : Request → ℕ → Type 0
Reaches q n = (k : ℕ) (s : List ℕ) → lookup k q.blocks ≡ some s → k ≤ n

update_block-Reaches :
    (rq : Request) (a b n : ℕ) (c : List ℕ)
    → a ≤ n
    → Reaches rq n
    → Reaches (update_block rq a b c) n
unfolding update_block
update_block-Reaches rq a b n c h v k s e =
    ground (arith, lookup-insert a k (overwrite (block_at rq a) b c) rq.blocks, v k s, ==_iff a k)

write_loop-Reaches :
    (fuel : ℕ) (rq : Request) (q n : ℕ) (rest : List ℕ)
    → Reaches rq n
    → q + length rest ≤ n
    → length rest ≤ fuel
    → Reaches (write_loop fuel rq q rest) n
unfolding write_loop
write_loop-Reaches zero rq q n rest v h w = v
write_loop-Reaches (suc fuel) rq q n [] v h w = v
write_loop-Reaches (suc fuel) rq q n (x ∷ rest) v h w =
    let bytes : List ℕ = x ∷ rest in
    let m = piece (q % block_size) (length bytes) in
    let a = q / block_size * block_size in
    let facts = piece_lem (q % block_size) (length bytes) (omega arith) (omega arith) in
    let low : a ≤ n = omega arith in
    write_loop-Reaches fuel (update_block rq a (q % block_size) (take m bytes)) (q + m) n
      (drop m bytes)
      (λ k s e. update_block-Reaches rq a (q % block_size) n (take m bytes) low v k s e)
      (omega (arith, facts, length-drop m bytes)) (omega (arith, facts, length-drop m bytes))

-- A request stands for the file `f`: it sees the file's bytes, and has the file's length.
pub record Stands (q : Request) (f : List ℕ) : Type 0 where
  pub whole : IsWhole q
  pub len : q.new_length ≡ length f
  pub same : (i : ℕ) → view q i ≡ byte f i
  pub reached : (k : ℕ) (s : List ℕ) → lookup k q.blocks ≡ some s → k ≤ length f

-- A new request stands for the file that it starts from.
pub new_request-Stands : (f : List ℕ) → Stands (new_request f) f
unfolding new_request view block_at lookup
new_request-Stands f = record {
  whole = record { size = λ k s e. cc; aligned = λ k s e. cc };
  len = refl;
  same = λ i.
      (fresh_block_lem f (i / block_size * block_size) (i % block_size)).1 (omega arith)
      ∙ ap (byte f) (omega arith);
  reached = λ k s e. cc;
}

-- Splitting a write into blocks is the same as the write into the flat file: a request that stands
-- for a file stands, after jL, for that file with the bytes written at the offset.
pub add_write_refines :
    (q : Request) (f : List ℕ) (a : ℕ) (b : List ℕ)
    → Stands q f
    → Stands (add_write q a b) (write_at f a b)
unfolding add_write view block_at
add_write_refines q f a b v =
    let w = (write_loop_lem (length b) q a 0 b v.whole (omega arith)).0 in
    record {
      whole = record { size = w.size; aligned = w.aligned };
      len = omega (arith, write_loop_keeps (length b) q a b, v.len, length-write_at f a b);
      same = λ i.
          (write_loop_lem (length b) q a i b v.whole (omega arith)).1
          ∙ (rw (v.same i, byte-write_at));
      reached =
          write_loop-Reaches (length b) q a (length (write_at f a b)) b
            (λ k s e. omega (arith, v.reached k s e, length-write_at f a b))
            (omega (arith, length-write_at f a b)) (omega arith);
    }

-- The flat file after a list of writes.
unfoldable pub write_all_at : List ℕ → List (ℕ × List ℕ) → List ℕ
write_all_at f [] = f
write_all_at f ((a, b) ∷ ws) = write_all_at (write_at f a b) ws

pub add_writes_refines :
    (q : Request) (f : List ℕ) (ws : List (ℕ × List ℕ))
    → Stands q f
    → Stands (add_writes q ws) (write_all_at f ws)
unfolding add_writes write_all_at
add_writes_refines q f [] v = v
add_writes_refines q f ((a, b) ∷ ws) v =
    add_writes_refines (add_write q a b) (write_at f a b) ws (add_write_refines q f a b v)
