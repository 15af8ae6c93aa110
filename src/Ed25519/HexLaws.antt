-- ===== src/Ed25519/HexLaws.antt =====
-- ed25519.c: hex_to_bytes undoes bytes_to_hex.
use dumbos_dumbos.Base.{
  ℕ, ◌*◌, ◌/◌, ◌%◌, ◌<◌, ◌≡◌, refl, true, [], ◌∷◌, Option, some, arith, Bytes, IsBytes, ok, length,
  all_below, all_below_sound, ==_iff, is_value, is_value_sound,
}
use dumbos_dumbos.Hex.{char_at}
use dumbos_dumbos.Ed25519.{hex_char_value, join_nibbles, hex_loop, hex_to_bytes, table, hex_chars}

abbrev joined : ℕ → Option ℕ
joined b =
    join_nibbles (hex_char_value (char_at table (b / 16 % 16)))
      (hex_char_value (char_at table (b % 16)))

joined_table : all_below 256 (λ b. is_value (joined b) b) ≡ true
unfolding all_below hex_char_value
joined_table = refl

joined_lem : (b : ℕ) → b < 256 → joined b ≡ some b
joined_lem b h =
    is_value_sound _ b (all_below_sound 256 (λ b. is_value (joined b) b) b joined_table h)

hex_loop-hex_chars : (bs : Bytes) → IsBytes bs → hex_loop (hex_chars bs) ≡ ok bs
unfolding hex_loop hex_chars
hex_loop-hex_chars [] h = refl
hex_loop-hex_chars (b ∷ bs) (hb, h) = rw (joined_lem b hb, hex_loop-hex_chars bs h)

pub length-hex_chars : (bs : Bytes) → length (hex_chars bs) ≡ length bs * 2
unfolding hex_chars
length-hex_chars [] = refl
length-hex_chars (b ∷ bs) = omega (arith, length-hex_chars bs)

pub hex_to_bytes-hex_chars :
    (bs : Bytes) (n : ℕ) → IsBytes bs → length bs ≡ n → hex_to_bytes (hex_chars bs) n ≡ ok bs
unfolding hex_to_bytes
hex_to_bytes-hex_chars bs n h e =
    rw ((==_iff (length (hex_chars bs)) (n * 2)).1 (omega (arith, length-hex_chars bs)))
      (hex_loop-hex_chars bs h)
