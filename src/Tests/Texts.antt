-- ===== src/Tests/Texts.antt =====
-- Character checks, hex and decimal numbers.
use dumbos_dumbos.Base.{◌≡◌, refl, codes, ok}
use dumbos_dumbos.Base.Int.{negsuc}
use dumbos_dumbos.Decimal.{parse_long_long}

minus_twelve : parse_long_long (codes "-12") ≡ ok (negsuc 11)
unfolding parse_long_long
minus_twelve = refl
