-- ===== src/AddressSpace/Reads.antt =====
-- The reads of src/address_space.cpp: when they succeed, what they return, how they fail.
use voidwalk.Common.{
  ℕ, zero, suc, ◌+◌, ◌*◌, ◌^◌, ◌≤◌, ◌<◌, ◌≡◌, refl, Option, none, some, ok, err, ◌>>=◌, sym, ap,
  arith,
}
use native.Mathlib.Decide.{dec_le}
use native.Mathlib.Nat.{pow-suc}
use voidwalk.AddressSpace.{AddressSpace, invalid_offset, load, read_type, join_byte, read_back}

-- The file still has every byte that it had when it was mapped.
pub record IsIntact (space : AddressSpace) : Type 0 where
  pub byte_at : (i : ℕ) → i < space.file_size → (b : ℕ) × (space.mapped_data i ≡ some b) × (b < 256)

read_back-some : (v : ℕ) → read_back (some v) ≡ ok v
unfolding read_back
read_back-some v = refl

load_intact :
    (space : AddressSpace)
    → IsIntact space
    → (width offset : ℕ) → offset + width ≤ space.file_size
    → (v : ℕ) × (load space.mapped_data width offset ≡ some v) × (v < 256 ^ width)
unfolding load
load_intact space h zero offset fits = (0, refl, omega arith)
load_intact space h (suc width) offset fits =
    let (b, eb, hb) = h.byte_at offset (omega arith) in
    let (r, er, hr) = load_intact space h width (offset + 1) (omega arith) in
    (b + 256 * r, rw (eb, er), rw pow-suc (omega arith))

-- A read that begins or ends past the end of the file throws `Invalid offset`, whatever its width.
pub read_outside :
    (space : AddressSpace) (width offset : ℕ)
    → space.file_size < offset + width
    → read_type width space offset ≡ err invalid_offset
unfolding read_type
read_outside space width offset out = ground arith

-- On an intact file a read that ends within it succeeds, with the little-endian value of its bytes,
-- which fits in the width.
pub read_inside :
    (space : AddressSpace)
    → IsIntact space
    → (width offset : ℕ) → offset + width ≤ space.file_size
    → (v : ℕ) × (load space.mapped_data width offset ≡ some v)
      × (read_type width space offset ≡ ok v)
      × (v < 256 ^ width)
unfolding read_type
read_inside space h width offset fits =
    let (v, e, hv) = load_intact space h width offset fits in
    (v, e, ground (arith, read_back-some v), hv)

-- `m` bytes and then more.
join_loads : ℕ → Option ℕ → Option ℕ → Option ℕ
join_loads m none hi = none
join_loads m (some lo) none = none
join_loads m (some lo) (some hi) = some (lo + 256 ^ m * hi)

shift_more : (m b lo hi : ℕ) → b + 256 * (lo + 256 ^ m * hi) ≡ b + 256 * lo + 256 ^ suc m * hi
shift_more m b lo hi = rw pow-suc (omega arith)

join_byte-join_loads :
    (m : ℕ) (b lo hi : Option ℕ)
    → join_byte b (join_loads m lo hi) ≡ join_loads (suc m) (join_byte b lo) hi
unfolding join_byte join_loads
join_byte-join_loads m none lo hi = refl
join_byte-join_loads m (some b) none hi = refl
join_byte-join_loads m (some b) (some lo) none = refl
join_byte-join_loads m (some b) (some lo) (some hi) = ap some (shift_more m b lo hi)

join_loads-zero : (hi : Option ℕ) → join_loads 0 (some 0) hi ≡ hi
unfolding join_loads
join_loads-zero none = refl
join_loads-zero (some hi) = ap some (omega arith)

load_split :
    (byte : ℕ → Option ℕ) (m n offset : ℕ)
    → load byte (m + n) offset ≡ join_loads m (load byte m offset) (load byte n (offset + m))
unfolding load
load_split byte zero n offset =
    let e : offset + 0 ≡ offset = omega arith in
    let e' : 0 + n ≡ n = omega arith in rw (e, e') (sym (join_loads-zero (load byte n offset)))
load_split byte (suc m) n offset =
    let e : suc m + n ≡ suc (m + n) = omega arith in
    let e' : offset + 1 + m ≡ offset + suc m = omega arith in
    rw (e, load_split byte m n (offset + 1), e')
      (join_byte-join_loads m (byte offset) (load byte m (offset + 1))
        (load byte n (offset + suc m)))

load_halves :
    (byte : ℕ → Option ℕ) (m n offset : ℕ) {v lo hi : ℕ}
    → load byte (m + n) offset ≡ some v
    → load byte m offset ≡ some lo
    → load byte n (offset + m) ≡ some hi
    → v ≡ lo + 256 ^ m * hi
unfolding join_loads
load_halves byte m n offset e e' e'' = ground (arith, load_split byte m n offset)

-- On an intact file a wide read is its two halves read one after the other, errors included.
pub read_type_split :
    (space : AddressSpace)
    → IsIntact space
    → (m n offset : ℕ)
    → read_type (m + n) space offset ≡ (do
      lo ← read_type m space offset
      hi ← read_type n space (offset + m)
      ok (lo + 256 ^ m * hi))
read_type_split space h m n offset = elim (dec_le (offset + (m + n)) space.file_size) [
  | yes fits ↦
      let (v, e, r, _) = read_inside space h (m + n) offset fits in
      let (lo, e', r', _) = read_inside space h m offset (omega arith) in
      let (hi, e'', r'', _) = read_inside space h n (offset + m) (omega arith) in
      rw (r, r', r'') (ap ok (load_halves space.mapped_data m n offset e e' e''))
  | no over ↦ elim (dec_le (offset + m) space.file_size) [
    | yes fits ↦
        let (lo, _, r', _) = read_inside space h m offset fits in
        rw (
          read_outside space (m + n) offset (omega arith),
          r',
          read_outside space n (offset + m) (omega arith),
        )
    | no over' ↦
        rw (
          read_outside space (m + n) offset (omega arith),
          read_outside space m offset (omega arith),
        )
  ]
]
