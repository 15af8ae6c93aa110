-- ===== src/Base/Text.antt =====
-- Text as the bytes of a C string, without the terminator, and comparisons of such strings.
use Prim.Native.Nat.{zero, suc, ◌<◌}
use Prim.Native.Char.{code}
use Prim.Native.String.{String}
use mathlib.Core.Path.{◌≡◌, refl}
use mathlib.Core.Logic.{◌↔◌}
use mathlib.Core.Bool.{Bool, true, false, ◌&&◌}
use mathlib.Core.List.{[], ◌∷◌, ◌++◌}
use native.Mathlib.Omega.{arith}
use dumbos_dumbos.Base.Tests.{◌==◌}
use dumbos_dumbos.Base.Lists.{Bytes, All}

-- The code points of a literal, which are its bytes when the text is ASCII.
abbrev pub codes : String → Bytes
codes String.[] = []
codes (String.◌∷◌ c s) = code c ∷ codes s

-- `!strcmp(a, b)`, and equality of two buffers.
unfoldable pub streq : Bytes → Bytes → Bool
streq [] [] = true
streq [] (b ∷ bs) = false
streq (a ∷ as') [] = false
streq (a ∷ as') (b ∷ bs) = a == b && streq as' bs

pub streq_iff : (a b : Bytes) → (streq a b ≡ true) ↔ (a ≡ b)
unfolding streq
streq_iff [] [] = ground arith
streq_iff [] (b ∷ bs) = ground arith
streq_iff (a ∷ as') [] = ground arith
streq_iff (a ∷ as') (b ∷ bs) = ground (arith, streq_iff as' bs)

pub streq_refl : (a : Bytes) → streq a a ≡ true
streq_refl a = (streq_iff a a).1 refl

-- The string that a buffer holds: its bytes before the first NUL.
unfoldable pub c_str : Bytes → Bytes
c_str [] = []
c_str (zero ∷ bs) = []
c_str (suc b ∷ bs) = suc b ∷ c_str bs

-- A C string holds no NUL and only bytes.
abbrev pub IsText : Bytes → Type 0
IsText = All (λ c. (0 < c) × (c < 256))

pub c_str-terminated : (s rest : Bytes) → IsText s → c_str (s ++ zero ∷ rest) ≡ s
unfolding c_str
c_str-terminated [] rest h = refl
c_str-terminated (zero ∷ s) rest h = absurd (omega arith)
c_str-terminated (suc c ∷ s) rest (hc, hs) = λ i. suc c ∷ c_str-terminated s rest hs i

pub c_str_self : (s : Bytes) → IsText s → c_str s ≡ s
unfolding c_str
c_str_self [] h = refl
c_str_self (zero ∷ s) h = absurd (omega arith)
c_str_self (suc c ∷ s) (hc, hs) = λ i. suc c ∷ c_str_self s hs i
