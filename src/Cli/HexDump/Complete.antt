-- ===== src/Cli/HexDump/Complete.antt =====
-- The hex dump of src/cli/hex_reader.hpp reaches the end of the file.
use voidwalk.Common.{
  ℕ, zero, suc, ◌+◌, ◌-◌, ◌*◌, ◌≤◌, ◌<◌, ltb, if◌then◌else◌, Bool, true, false, [], length, none,
  Result, ok, ◌>>=◌, ◌≡◌, refl, arith, Text,
}
use mathlib.Core.Path.{subst}
use voidwalk.AddressSpace.{AddressSpace, read_u8, size}
use voidwalk.AddressSpace.Reads.{IsIntact}
use voidwalk.Session.Bytes.{read_u8-mapped}
use voidwalk.Cli.HexDump.{Dump, cells, dump_line, dump_from, written, output_hex}

-- So many lines and no exception, for the bytes that are left
pub record Complete (left : ℕ) (d : Dump) : Type 0 where
  pub no_error : d.1 ≡ none
  pub enough : left ≤ 16 * length d.0
  pub no_more : 16 * length d.0 ≤ left + 15

abbrev Given : {A : Type 0} → Result A → Type 0
Given {A = A} r = (a : A) × (r ≡ ok a)

Given-bind :
    {A B : Type 0} (r : Result A) (f : A → Result B)
    → Given r
    → ((a : A) → Given (f a))
    → Given (r >>= f)
Given-bind r f (a, e) k = rw e (k a)

if_Given :
    {A : Type 0} (b : Bool) (x y : Result A)
    → (b ≡ true → Given x)
    → (b ≡ false → Given y)
    → Given (if b then x else y)
if_Given true x y h k = h refl
if_Given false x y h k = k refl

in_size : (n m : ℕ) → ltb n m ≡ true → n < m
in_size n m h = ground arith

not_in_size : (n m : ℕ) → ltb n m ≡ false → m - n ≤ 0
not_in_size n m h = ground arith

if_Complete :
    (left : ℕ) (b : Bool) (x y : Dump)
    → (b ≡ true → Complete left x)
    → (b ≡ false → Complete left y)
    → Complete left (if b then x else y)
if_Complete left true x y h k = h refl
if_Complete left false x y h k = k refl

module _ (space : AddressSpace) (intact : IsIntact space) where
  read_u8-Given : (at : ℕ) → at < space.file_size → Given (read_u8 space at)
  read_u8-Given at h = let (b, e, _) = intact.byte_at at h in (b, read_u8-mapped space at b h e)

  cells-Given : (rounds at : ℕ) → Given (cells space at rounds)
  unfolding cells size
  cells-Given zero at = (([], []), refl)
  cells-Given (suc rounds) at =
      if_Given (ltb at (size space)) _ _
        (λ e.
          Given-bind (read_u8 space at) _ (read_u8-Given at (in_size at (size space) e))
            (λ b. Given-bind _ _ (cells-Given rounds (suc at)) (λ (hexes, ascii). (_, refl))))
        (λ e. Given-bind _ _ (cells-Given rounds (suc at)) (λ (hexes, ascii). (_, refl)))

  dump_line-Given : (off : ℕ) → Given (dump_line space off)
  unfolding dump_line
  dump_line-Given off =
      Given-bind (cells space off 16) _ (cells-Given 16 off) (λ (hexes, ascii). (_, refl))

  Complete-written :
      (off : ℕ) (r : Result Text) (rest : Dump)
      → off < space.file_size
      → Given r
      → Complete (space.file_size - (off + 16)) rest
      → Complete (space.file_size - off) (written r rest)
  Complete-written off r (lines, end) h (line, e) c =
      let few = c.no_more in
      let many = c.enough in
      rw e (record { no_error = c.no_error; enough = omega arith; no_more = omega arith })

  Complete-dump_from :
      (rounds off : ℕ)
      → space.file_size ≤ off + rounds
      → Complete (space.file_size - off) (dump_from space rounds off)
  unfolding dump_from size
  Complete-dump_from zero off h = record {
    no_error = refl;
    enough = omega arith;
    no_more = omega arith;
  }
  Complete-dump_from (suc rounds) off h =
      if_Complete (space.file_size - off) (ltb off (size space)) _ _
        (λ e.
          Complete-written off (dump_line space off) (dump_from space rounds (off + 16))
            (in_size off (size space) e) (dump_line-Given off)
            (Complete-dump_from rounds (off + 16) (omega arith)))
        (λ e. record {
          no_error = refl;
          enough = not_in_size off (size space) e;
          no_more = omega arith;
        })

  -- On an intact file the dump throws nothing and has a line for every sixteen bytes, the last one
  -- for what is left.
  pub output_hex-Complete : Complete space.file_size (output_hex space)
  unfolding output_hex size
  output_hex-Complete =
      let all : space.file_size - 0 ≡ space.file_size = omega arith in
      subst (λ n. Complete n (dump_from space space.file_size 0)) all
        (Complete-dump_from space.file_size 0 (omega arith))
