-- ===== src/Daemon/PayloadLaws.antt =====
-- daemon/secret_code.c and daemon/payload_cmd.c: handling a payload ends.
use dumbos_dumbos.Base.{
  ℕ, zero, suc, ◌+◌, ◌-◌, ◌<◌, Bool, true, false, none, some, arith, Bytes, Result, ok, err, ltb,
  take, drop, Bool-cases, inl, inr, not_ltb,
}
use dumbos_dumbos.Base.Int.{ℤ, pos, negsuc}
use dumbos_dumbos.Ed25519.{Openssl}
use dumbos_dumbos.Payload.{Payload, base_size, ntohl, of_bytes}
use dumbos_dumbos.Payload.Expire.{dp_is_expired_compare}
use dumbos_dumbos.Payload.Sign.{dp_verify}
use dumbos_dumbos.Daemon.{Device, Phone}
use dumbos_dumbos.Daemon.Payloads.{
  Handled, Command, nothing, act, composite, unknown, find_command, command_table, command_string,
  next, composite_loop, payload_cmd_composite, payload_count, run_command, verified, unexpired,
  handle_fuel, handle_one_payload,
}

-- The fuel was enough.
abbrev pub Ends : Handled → Type 0
Ends none = ⊥
Ends (some r) = Unit

next-Ends :
    (r : Handled) (rest : Device → Handled)
    → Ends r
    → ((d : Device) → Ends (rest d))
    → Ends (next r rest)
next-Ends none rest h k = h
next-Ends (some (pos zero, d)) rest h k = k d
next-Ends (some (pos (suc n), d)) rest h k = tt
next-Ends (some (negsuc n, d)) rest h k = tt

-- The payloads in a composite are shorter than its data.
composite_loop-Ends :
    (handle : Payload → ℕ → Device → Handled) (count : ℕ) (content : Bytes) (size offset : ℕ)
    (d : Device)
    → ((p : Payload) (n : ℕ) (d : Device) → n < size → Ends (handle p n d))
    → Ends (composite_loop handle count content size offset d)
unfolding composite_loop
composite_loop-Ends handle zero content size offset d h = tt
composite_loop-Ends handle (suc count) content size offset d h =
    let payload_size = ntohl (take 4 (drop offset content)) in
    elim (Bool-cases (ltb size (offset + 4))) [
      | inl e ↦ rw e tt
      | inr e ↦ rw e (elim (Bool-cases (ltb size (offset + 4 + payload_size))) [
        | inl f ↦ rw f tt
        | inr f ↦ rw f (elim (Bool-cases (ltb payload_size base_size)) [
          | inl g ↦ rw g tt
          | inr g ↦ rw g (
              next-Ends _ _
                (h (of_bytes (drop (offset + 4) content)) (payload_size - base_size) d (
                  omega (
                    arith,
                    not_ltb size (offset + 4 + payload_size) f,
                    not_ltb payload_size base_size g,
                  )))
                (λ d'.
                  composite_loop-Ends handle count content size (offset + 4 + payload_size) d' h))
        ])
      ])
    ]

module _ (o : Openssl) (pubkey : Bytes) (phone : Phone) where
  run_command-Ends :
      (handle : Payload → ℕ → Device → Handled) (c : Command) (cmd content : Bytes) (size : ℕ)
      (d : Device)
      → ((p : Payload) (n : ℕ) (d : Device) → n < size → Ends (handle p n d))
      → Ends (run_command o pubkey phone handle c cmd content size d)
  unfolding run_command payload_cmd_composite
  run_command-Ends handle nothing cmd content size d h = tt
  run_command-Ends handle (act a) cmd content size d h = tt
  run_command-Ends handle unknown cmd content size d h = tt
  run_command-Ends handle composite cmd content size d h = elim (Bool-cases (ltb size 2)) [
    | inl e ↦ rw e tt
    | inr e ↦ rw e (composite_loop-Ends handle (payload_count content) content size 2 d h)
  ]

  verified-Ends :
      (handle : Payload → ℕ → Device → Handled) (before : Payload) (size : ℕ) (d : Device)
      (r : Result (Unit {0}) × Payload)
      → ((p : Payload) (n : ℕ) (d : Device) → n < size → Ends (handle p n d))
      → Ends (verified o pubkey phone handle before size d r)
  verified-Ends handle before size d (err e, p) h = tt
  verified-Ends handle before size d (ok _, p) h =
      run_command-Ends handle (find_command command_table (command_string p)) (command_string p)
        (take size p.payload) size _ h

  unexpired-Ends :
      (handle : Payload → ℕ → Device → Handled) (size : ℕ) (d : Device) (r : Bool × Payload)
      → ((p : Payload) (n : ℕ) (d : Device) → n < size → Ends (handle p n d))
      → Ends (unexpired o pubkey phone handle size d r)
  unexpired-Ends handle size d (true, p) h = tt
  unexpired-Ends handle size d (false, p) h =
      verified-Ends handle p size d (dp_verify o p (size + base_size) pubkey) h

  handle_fuel-Ends :
      (fuel : ℕ) (now time : ℤ) (p : Payload) (size : ℕ) (d : Device)
      → size < fuel
      → Ends (handle_fuel o pubkey phone fuel now time p size d)
  unfolding handle_fuel
  handle_fuel-Ends zero now time p size d h = omega arith
  handle_fuel-Ends (suc fuel) now time p size d h =
      unexpired-Ends (handle_fuel o pubkey phone fuel now time) size d
        (dp_is_expired_compare now p time)
        (λ q n d' k. handle_fuel-Ends fuel now time q n d' (omega arith))

  -- Handling a payload always ends, whatever its bytes and whatever payloads it holds in one another:
  -- the size of its data bounds the depth of the recursion.
  pub handle_one_payload-Ends :
      (now time : ℤ) (p : Payload) (size : ℕ) (d : Device)
      → Ends (handle_one_payload o pubkey phone now time p size d)
  unfolding handle_one_payload
  handle_one_payload-Ends now time p size d =
      handle_fuel-Ends (suc size) now time p size d (omega arith)
