-- ===== src/Bytes/Flat.antt =====
-- Reading a byte array after it was written to, and files as flat sequences of bytes.
use bojairu.Prelude.{
  ℕ, zero, ◌+◌, ◌-◌, ◌≤◌, ◌<◌, ◌≡◌, ◌∙◌, ap, max, ◌&&◌, List, ◌++◌, arith, ltb, leb, if◌then◌else◌,
  length, take, drop, replicate, length-append, length-take, length-drop, length-replicate, get_or,
  get_or-append_left, get_or-append_right, get_or-take, get_or-drop, get_or-beyond,
  get_or-replicate,
}
use bojairu.Bytes.{overwrite, zeros}

-- The byte at an index, which is 0 behind the end.
abbrev pub byte : List ℕ → ℕ → ℕ
byte xs i = get_or xs i 0

pub length-overwrite :
    (a : List ℕ) (b : ℕ) (d : List ℕ)
    → b + length d ≤ length a
    → length (overwrite a b d) ≡ length a
unfolding overwrite
length-overwrite a b d h = omega (
  arith,
  length-append (take b a) (d ++ drop (b + length d) a),
  length-append d (drop (b + length d) a),
  length-take b a,
  length-drop (b + length d) a,
)

pub byte-append :
    (xs ys : List ℕ) (i : ℕ)
    → byte (xs ++ ys) i ≡ (if ltb i (length xs) then byte xs i else byte ys (i - length xs))
byte-append xs ys i = ground (arith, get_or-append_left xs ys i 0, get_or-append_right xs ys i 0)

pub byte-beyond : (xs : List ℕ) (i : ℕ) → length xs ≤ i → byte xs i ≡ 0
byte-beyond xs i h = get_or-beyond xs i 0 h

pub byte-take : (n : ℕ) (xs : List ℕ) (i : ℕ) → i < n → byte (take n xs) i ≡ byte xs i
byte-take n xs i h = get_or-take n xs i 0 h

pub byte-drop : (n : ℕ) (xs : List ℕ) (i : ℕ) → byte (drop n xs) i ≡ byte xs (n + i)
byte-drop n xs i = get_or-drop n xs i 0

pub byte-replicate_zero : (n i : ℕ) → byte (replicate n 0) i ≡ 0
byte-replicate_zero n i = get_or-replicate n 0 i

-- Inside the written range the new bytes, outside of it the old ones.
pub byte-overwrite :
    (a : List ℕ) (b : ℕ) (d : List ℕ) (i : ℕ)
    → b + length d ≤ length a
    → byte (overwrite a b d) i
      ≡ (if leb b i && ltb i (b + length d) then byte d (i - b) else byte a i)
unfolding overwrite
byte-overwrite a b d i h = ground (
  arith,
  byte-append (take b a) (d ++ drop (b + length d) a) i,
  byte-append d (drop (b + length d) a) (i - b),
  length-take b a,
  byte-take b a i,
  byte-drop (b + length d) a (i - b - length d),
  back,
)
  where
    back : b + length d ≤ i → byte a (b + length d + (i - b - length d)) ≡ byte a i
    back k = ap (byte a) (omega arith)

-- A file's contents after the bytes `d` were written at `a`: a gap behind the old end holds zeros.
unfoldable pub write_at : List ℕ → ℕ → List ℕ → List ℕ
write_at f a d = overwrite (f ++ replicate (a + length d - length f) 0) a d

-- A file's contents after its length was set: cut off, or extended by zeros.
unfoldable pub resize : List ℕ → ℕ → List ℕ
resize f n = take n f ++ replicate (n - length f) 0

room_for_write :
    (f : List ℕ) (a : ℕ) (d : List ℕ)
    → length (f ++ replicate (a + length d - length f) 0) ≡ max (length f) (a + length d)
room_for_write f a d = omega (
  arith,
  length-append f (replicate (a + length d - length f) 0),
  length-replicate (a + length d - length f) (zero),
)

pub length-write_at :
    (f : List ℕ) (a : ℕ) (d : List ℕ) → length (write_at f a d) ≡ max (length f) (a + length d)
unfolding write_at
length-write_at f a d =
    length-overwrite _ a d (omega (arith, room_for_write f a d)) ∙ room_for_write f a d

pub byte-write_at :
    (f : List ℕ) (a : ℕ) (d : List ℕ) (i : ℕ)
    → byte (write_at f a d) i
      ≡ (if leb a i && ltb i (a + length d) then byte d (i - a) else byte f i)
unfolding write_at
byte-write_at f a d i = ground (
  arith,
  byte-overwrite (f ++ replicate (a + length d - length f) 0) a d i
      (omega (arith, room_for_write f a d)),
  byte-append f (replicate (a + length d - length f) 0) i,
  byte-replicate_zero (a + length d - length f) (i - length f),
  byte-beyond f i,
)

pub length-resize : (f : List ℕ) (n : ℕ) → length (resize f n) ≡ n
unfolding resize
length-resize f n = omega (
  arith,
  length-append (take n f) (replicate (n - length f) 0),
  length-take n f,
  length-replicate (n - length f) (zero),
)

pub byte-resize : (f : List ℕ) (n i : ℕ) → byte (resize f n) i ≡ (if ltb i n then byte f i else 0)
unfolding resize
byte-resize f n i = ground (
  arith,
  byte-append (take n f) (replicate (n - length f) 0) i,
  length-take n f,
  byte-take n f i,
  byte-beyond f i,
  byte-replicate_zero (n - length f) (i - length (take n f)),
)

pub length-zeros : (n : ℕ) → length (zeros n) ≡ n
unfolding zeros
length-zeros n = length-replicate n 0

pub byte-zeros : (n i : ℕ) → byte (zeros n) i ≡ 0
unfolding zeros
byte-zeros n i = byte-replicate_zero n i
