-- ===== src/Bytes.antt =====
-- Byte arrays: the `Uint8Array` methods of the web app's database worker
-- (mobile/web/drift_worker.dart.js) and the growable buffer `A.dq` built on them.
-- A byte array is the list of its elements.
pub mod Flat
pub mod Pieces
pub mod Buffer
use bojairu.Prelude.{
  ℕ, zero, suc, ◌+◌, ◌-◌, ◌≤◌, ◌<◌, ◌≡◌, refl, Bool, true, false, ◌&&◌, Option, none, some, List,
  [], ◌∷◌, ◌++◌, arith, ltb, leb, if◌then◌else◌, length, take, drop, replicate,
}

-- `a.set(d, b)`: the bytes of `d` over those of `a` from the index `b` on.
unfoldable pub overwrite : List ℕ → ℕ → List ℕ → List ℕ
overwrite a b d = take b a ++ (d ++ drop (b + length d) a)

-- `A.dd.fG`: the elements from `e` on of `d` go to the indices from `b` to `c` of `a`; `none` is the
-- `RangeError` or the `StateError` that the method throws.
unfoldable pub set_range : List ℕ → ℕ → ℕ → List ℕ → ℕ → Option (List ℕ)
set_range a b c d e =
    if leb b (length a) && (leb c (length a) && (leb b c && leb (e + (c - b)) (length d)))
    then some (overwrite a b (take (c - b) (drop e d)))
    else none

-- `A.v.el`, fillRange: the value `d` at each index from `b` up to `c`, which every caller keeps within
-- the list.
unfoldable pub fill_range : List ℕ → ℕ → ℕ → ℕ → List ℕ
fill_range a b c d = overwrite a b (replicate (c - b) d)

-- `new Uint8Array(n)`
unfoldable pub zeros : ℕ → List ℕ
zeros n = replicate n 0
