-- ===== src/Base/Bytes.antt =====
-- Byte slices as lists of numbers: the big-endian integers of `encoding/binary`, and reads at a
-- cursor. The code indexes one slice by an offset; here the cursor is what stands behind it.
use Prim.Native.Nat.{ℕ, zero, suc, ◌+◌, ◌*◌, ◌/◌, ◌%◌, ◌<◌}
use mathlib.Core.List.{List, [], ◌∷◌, ◌++◌}
use Prim.Native.String.{String}
use cnnic_gmtls.Base.Tests.{ltb, leb, if◌then◌else◌}
use cnnic_gmtls.Base.Lists.{length, take, drop}
use cnnic_gmtls.Base.Results.{Outcome, ok, panic, ◌>>=◌, ◌>>◌, fail_if}

abbrev pub IsByte : ℕ → Type 0
IsByte b = b < 256

abbrev pub IsUint16 : ℕ → Type 0
IsUint16 v = v < 65536

-- `PutUint16(uint16(v))`: what does not fit is cut off.
abbrev pub put_uint16 : ℕ → List ℕ
put_uint16 v = (v / 256 % 256) ∷ (v % 256) ∷ []

-- `writeUint24`
abbrev pub put_uint24 : ℕ → List ℕ
put_uint24 v = (v / 65536 % 256) ∷ (v / 256 % 256) ∷ (v % 256) ∷ []

-- `PutUint32(uint32(v))`
abbrev pub put_uint32 : ℕ → List ℕ
put_uint32 v = (v / 16777216 % 256) ∷ (v / 65536 % 256) ∷ (v / 256 % 256) ∷ (v % 256) ∷ []

-- `PutUint64`
abbrev pub put_uint64 : ℕ → List ℕ
put_uint64 v = put_uint32 (v / 4294967296) ++ put_uint32 v

-- `data[off]`, and the cursor behind it.
unfoldable pub get_byte : List ℕ → Outcome (ℕ × List ℕ)
get_byte [] = panic
get_byte (a ∷ rest) = ok (a, rest)

-- `binary.BigEndian.Uint16(data[off:off+2])`
unfoldable pub get_uint16 : List ℕ → Outcome (ℕ × List ℕ)
get_uint16 (a ∷ b ∷ rest) = ok (a * 256 + b, rest)
get_uint16 _ = panic

-- `readUint24(data[off:off+3])`
unfoldable pub get_uint24 : List ℕ → Outcome (ℕ × List ℕ)
get_uint24 (a ∷ b ∷ c ∷ rest) = ok (a * 65536 + b * 256 + c, rest)
get_uint24 _ = panic

-- `binary.BigEndian.Uint32(data[off:off+4])`
unfoldable pub get_uint32 : List ℕ → Outcome (ℕ × List ℕ)
get_uint32 (a ∷ b ∷ c ∷ d ∷ rest) = ok (a * 16777216 + b * 65536 + c * 256 + d, rest)
get_uint32 _ = panic

-- `data[off:off+n]`, and the cursor behind it.
unfoldable pub split : ℕ → List ℕ → Outcome (List ℕ × List ℕ)
split n data' = if leb n (length data') then ok (take n data', drop n data') else panic

-- `n` times `binary.BigEndian.Uint16`, the offset going up by 2.
unfoldable pub get_uint16s : ℕ → List ℕ → Outcome (List ℕ × List ℕ)
unfolding get_uint16
get_uint16s zero data' = ok ([], data')
get_uint16s (suc n) data' = do
  (v, rest) ← get_uint16 data'
  (vs, rest') ← get_uint16s n rest
  ok (v ∷ vs, rest')

abbrev pub put_uint16s : List ℕ → List ℕ
put_uint16s [] = []
put_uint16s (v ∷ vs) = put_uint16 v ++ put_uint16s vs

-- A length in one byte and as many bytes, each with the check that stands before its read.
unfoldable pub vector8 : String → String → List ℕ → Outcome (List ℕ × List ℕ)
unfolding get_byte split
vector8 no_length truncated data' = do
  fail_if (ltb (length data') 1) no_length
  (n, rest) ← get_byte data'
  fail_if (ltb (length rest) n) truncated
  split n rest

-- The same with a length in two bytes.
unfoldable pub vector16 : String → String → List ℕ → Outcome (List ℕ × List ℕ)
unfolding get_uint16 split
vector16 no_length truncated data' = do
  fail_if (ltb (length data') 2) no_length
  (n, rest) ← get_uint16 data'
  fail_if (ltb (length rest) n) truncated
  split n rest
