-- ===== src/Bytes/Buffer.antt =====
-- `A.dq`, the growable byte buffer of mobile/web/drift_worker.dart.js, which holds the files of the
-- in-memory file system: a backing store (field `a`) with a length (field `b`) and spare room.
pub mod Laws
use bojairu.Prelude.{
  ℕ, zero, suc, ◌+◌, ◌-◌, ◌*◌, ◌≤◌, ◌<◌, ◌≡◌, refl, ◌∙◌, ap, max, min, Bool, true, false, ◌&&◌,
  Option, none, some, List, [], ◌∷◌, ◌++◌, arith, ltb, leb, ◌==◌, if◌then◌else◌, length, take, drop,
  sym, replicate, length-append, length-take, length-drop, length-replicate, get_or, ext_of_get_or,
}
use bojairu.Bytes.{overwrite, set_range, fill_range}
use bojairu.Bytes.Flat.{
  byte, length-overwrite, byte-overwrite, byte-append, byte-take, byte-drop, byte-beyond,
  byte-replicate_zero, write_at, resize, length-write_at, byte-write_at, length-resize, byte-resize,
}

pub record Buffer : Type 0 where
  pub store : List ℕ
  pub len : ℕ

-- `new A.br(new Uint8Array(0),0)`
abbrev pub empty_buffer : Buffer
empty_buffer = record { store = []; len = 0 }

-- `ie`: a larger backing store, at least twice the old one and at least 8 bytes.
unfoldable pub grown : Buffer → ℕ → List ℕ
grown o a =
    let s = length o.store * 2 in replicate (if ltb s a then a else (if ltb s 8 then 8 else s)) 0

-- `sl`, the setter of the length.
unfoldable pub set_length : Buffer → ℕ → Buffer
unfolding grown fill_range
set_length o b =
    if ltb b o.len
    then record { store = fill_range o.store b o.len 0; len = b }
    else (if ltb (length o.store) b
        then record {
          store =
              overwrite (if length o.store == 0 then replicate b 0 else grown o b) 0
                (take o.len o.store);
          len = b;
        }
        else record { store = o.store; len = b })

-- `M` and `ad`: a range of the buffer is set from another list; `none` is the error of a range
-- behind the end.
unfoldable pub set_range_in : Buffer → ℕ → ℕ → List ℕ → ℕ → Option Buffer
unfolding set_range
set_range_in o b c d e = if ltb o.len c then none else elim (set_range o.store b c d e) [
  | none ↦ none
  | some s ↦ some (record { store = s; len = o.len })
]

-- What the buffer holds.
abbrev pub contents : Buffer → List ℕ
contents o = take o.len o.store

-- The length is within the backing store, and the spare room holds zeros.
pub record IsValid (o : Buffer) : Type 0 where
  pub within : o.len ≤ length o.store
  pub blank : (i : ℕ) → o.len ≤ i → byte o.store i ≡ 0

-- The buffer with room for bytes up to the index `s`.
unfoldable pub roomy : Buffer → ℕ → Buffer
roomy p s = if ltb p.len s then set_length p s else p

-- The write of the in-memory file system: room is made, then the bytes are set.
unfoldable pub write_buffer : Buffer → ℕ → List ℕ → Option Buffer
write_buffer p b a = let s = b + length a in set_range_in (roomy p s) b s a 0
