-- ===== src/Hex.antt =====
-- common.c, malloc_buf_to_hex and malloc_hex_to_buf.
-- `char` is signed on x86 and unsigned on ARM: the decoder, which keeps -1 in a `char`, takes the
-- signedness as an argument. Memory allocation is taken to succeed.
pub mod RoundTrip
use dumbos_dumbos.Base.{
  ℕ, zero, suc, ◌+◌, ◌-◌, ◌*◌, ◌/◌, ◌%◌, Bool, true, false, ◌&&◌, List, [], ◌∷◌, ◌++◌, Option, none,
  some, Bytes, codes, Result, ok, err, leb, if◌then◌else◌, ◌==◌,
}
use dumbos_dumbos.Base.Errno.{einval}

abbrev pub hex_table : Bytes
hex_table = codes "0123456789ABCDEF"

-- `hex[i]`; past the table is the NUL behind it.
abbrev pub char_at : Bytes → ℕ → ℕ
char_at [] i = 0
char_at (c ∷ s) zero = c
char_at (c ∷ s) (suc i) = char_at s i

unfoldable pub malloc_buf_to_hex : Bytes → Bytes
malloc_buf_to_hex [] = []
malloc_buf_to_hex (c ∷ buf) =
    char_at hex_table (c / 16) ∷ char_at hex_table (c % 16) ∷ malloc_buf_to_hex buf

-- `none` is -1.
unfoldable pub hexchartoval : ℕ → Option ℕ
hexchartoval c =
    if leb b'0' c && leb c b'9'
    then some (c - b'0')
    else if leb b'a' c && leb c b'f'
    then some (c - b'a' + 10)
    else if leb b'A' c && leb c b'F'
    then some (c - b'A' + 10)
    else none

-- `char v = hexchartoval(c)` as the test `v < 0` sees it: `none` is a negative value.
abbrev pub as_char : Bool → Option ℕ → Option ℕ
as_char is_signed (some v) = some v
as_char true none = none
as_char false none = some 255

-- `output[i] = (16 * top) + bottom`, the store into a `char` cuts to a byte.
abbrev pub store_byte : Option ℕ → Option ℕ → Option ℕ
store_byte (some top) (some bottom) = some ((16 * top + bottom) % 256)
store_byte (some top) none = none
store_byte none bottom = none

abbrev pub push : Option ℕ → Result Bytes → Result Bytes
push none r = err einval
push (some b) (ok bs) = ok (b ∷ bs)
push (some b) (err e) = err e

-- The loop over the pairs of characters.
unfoldable pub hex_pairs : Bool → Bytes → Result Bytes
hex_pairs is_signed [] = ok []
hex_pairs is_signed (c ∷ []) = ok []
hex_pairs is_signed (c ∷ d ∷ hex) =
    push (store_byte (as_char is_signed (hexchartoval c)) (as_char is_signed (hexchartoval d)))
      (hex_pairs is_signed hex)

-- `strlen(hex) % 2 == 0`
abbrev pub is_even : Bytes → Bool
is_even [] = true
is_even (c ∷ []) = false
is_even (c ∷ d ∷ hex) = is_even hex

unfoldable pub malloc_hex_to_buf : Bool → Bytes → Result Bytes
malloc_hex_to_buf is_signed hex = if is_even hex then hex_pairs is_signed hex else err einval
