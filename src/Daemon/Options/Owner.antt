-- ===== src/Daemon/Options/Owner.antt =====
-- daemon/main.c: the owner of the socket that the options name.
use dumbos_dumbos.Base.{
  ℕ, ◌%◌, ◌^◌, ◌<◌, ◌≡◌, refl, ap, ◌∙◌, sym, true, false, [], ◌∷◌, ◌++◌, append-nil, Option, some,
  Bytes, codes, ok, length, All, arith, le→leb, lt→ltb,
}
use dumbos_dumbos.Decimal.{number, print_ℕ}
use dumbos_dumbos.Decimal.RoundTrip.{number-print_ℕ}
use dumbos_dumbos.Decimal.Digits.{IsDigit, print_ℕ-IsDigit, length-print_ℕ_pos}
use dumbos_dumbos.Daemon.Options.{
  owner, starts_with_digit, parse_id, split_colon, parse_owner, starts, System, daemon_main,
}

print_starts : (s : Bytes) → All IsDigit s → 0 < length s → starts_with_digit s ≡ true
print_starts [] h pos_length = absurd (omega arith)
print_starts (c ∷ s) (h, _) pos_length = rw (le→leb b'0' c h.0, le→leb c b'9' h.1) refl

split_colon-digits :
    (user group : Bytes)
    → All IsDigit user
    → split_colon (user ++ b':' ∷ group) ≡ some (user, group)
unfolding split_colon
split_colon-digits [] group h = refl
split_colon-digits (c ∷ user) group (h, hs) = ground (arith, split_colon-digits user group hs)

parse_id-print_ℕ :
    (find : Bytes → Option ℕ) (n : ℕ) → n < 2 ^ 63 → parse_id find (print_ℕ n) ≡ ok (n % 4294967296)
unfolding parse_id
parse_id-print_ℕ find n h =
    let whole : number (print_ℕ n) ≡ some (false, n, []) =
      ap number (sym (append-nil (print_ℕ n))) ∙ number-print_ℕ n [] tt in
    rw
      (
        print_starts (print_ℕ n) (print_ℕ-IsDigit n) (length-print_ℕ_pos n),
        whole,
        lt→ltb n (2 ^ 63) h,
      )
      refl

-- Ids that are given as numbers are taken modulo 2 ^ 32: with the one option that names the owner as
-- `u:g`, two numbers below 2 ^ 63, start_daemon is called with the user `u` and the group `g` modulo
-- 2 ^ 32, with the mode 0666 and the other defaults. So the user 2 ^ 32 is root.
pub daemon_main_owner :
    (sys : System) (default_server : Bytes) (u g : ℕ)
    → u < 2 ^ 63
    → g < 2 ^ 63
    → daemon_main sys default_server (owner (print_ℕ u ++ b':' ∷ print_ℕ g) ∷ [])
      ≡ starts (record {
        tmpdir = codes "/data/local/tmp/dumb/";
        server = default_server;
        path = codes "/dev/socket/dumbosd.socket";
        mode = 438;
        uid = u % 4294967296;
        gid = g % 4294967296;
        con = codes "u:object_r:dumbosd_socket:s0";
      })
unfolding daemon_main parse_owner
daemon_main_owner sys default_server u g hu hg =
    rw
      (
        split_colon-digits (print_ℕ u) (print_ℕ g) (print_ℕ-IsDigit u),
        parse_id-print_ℕ sys.getpwnam u hu,
        parse_id-print_ℕ sys.getgrnam g hg,
      )
      refl
