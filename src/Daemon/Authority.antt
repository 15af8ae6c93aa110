-- ===== src/Daemon/Authority.antt =====
-- daemon/secret_code.c and daemon/payload_cmd.c: who may make the phone act.
use dumbos_dumbos.Base.{
  ℕ, zero, suc, ◌+◌, ◌-◌, ◌≡◌, refl, ap, ◌∙◌, sym, Bool, true, false, List, [], ◌∷◌, ◌++◌,
  append_assoc, append-nil, none, some, Bytes, Result, ok, err, ltb, take, drop, All, All-append,
  Bool-cases, inl, inr,
}
use dumbos_dumbos.Base.Int.{ℤ, pos, negsuc}
use dumbos_dumbos.Ed25519.{Openssl}
use dumbos_dumbos.Payload.{Payload, base_size, ntohl, of_bytes}
use dumbos_dumbos.Payload.Expire.{dp_is_expired_compare}
use dumbos_dumbos.Payload.Sign.{dp_verify}
use dumbos_dumbos.Daemon.{Call, Device, Phone}
use dumbos_dumbos.Daemon.Payloads.{
  Handled, Command, nothing, act, composite, unknown, find_command, command_table, command_string,
  next, composite_loop, payload_cmd_composite, payload_count, run_command, verified, unexpired,
  handle_fuel, handle_one_payload,
}

-- A call that a payload asks for, which was not expired at `time` and whose signature was verified.
pub record Authorised (o : Openssl) (pubkey : Bytes) (now time : ℤ) (c : Call) : Type 0 where
  pub asking : Payload
  pub size : ℕ
  pub left : Payload
  pub checked : Payload
  pub fresh : dp_is_expired_compare now asking time ≡ (false, left)
  pub signed : dp_verify o left (size + base_size) pubkey ≡ (ok tt, checked)
  pub named : find_command command_table (command_string checked) ≡ act c.action
  pub carried : c.argument ≡ take size checked.payload

module _ (o : Openssl) (pubkey : Bytes) (phone : Phone) (now time : ℤ) where
  -- The calls that were added were all authorised.
  abbrev pub Grown : Device → Handled → Type 0
  Grown d none = Unit
  Grown d (some (code, d')) =
      (new : List Call) × (d'.calls ≡ d.calls ++ new) × All (Authorised o pubkey now time) new

  abbrev Trusted : (Payload → ℕ → Device → Handled) → Type 0
  Trusted handle = (p : Payload) (n : ℕ) (d : Device) → Grown d (handle p n d)

  unchanged :
      (d : Device)
      → (new : List Call) × (d.calls ≡ d.calls ++ new) × All (Authorised o pubkey now time) new
  unchanged d = ([], sym (append-nil d.calls), tt)

  joined :
      (d d' : Device) (r : Handled) (first : List Call)
      → d'.calls ≡ d.calls ++ first
      → All (Authorised o pubkey now time) first
      → Grown d' r
      → Grown d r
  joined d d' none first e a g = tt
  joined d d' (some (code, d'')) first e a (new, f, b) = (
    first ++ new,
    f ∙ (ap (λ (l : List Call). l ++ new) e ∙ append_assoc d.calls first new),
    All-append (Authorised o pubkey now time) first new a b,
  )

  next-Grown :
      (d : Device) (r : Handled) (rest : Device → Handled)
      → Grown d r
      → ((d' : Device) → Grown d' (rest d'))
      → Grown d (next r rest)
  next-Grown d none rest g k = tt
  next-Grown d (some (pos zero, d')) rest (new, e, a) k = joined d d' (rest d') new e a (k d')
  next-Grown d (some (pos (suc n), d')) rest g k = g
  next-Grown d (some (negsuc n, d')) rest g k = g

  composite_loop-Grown :
      (handle : Payload → ℕ → Device → Handled) (count : ℕ) (content : Bytes) (size offset : ℕ)
      (d : Device)
      → Trusted handle
      → Grown d (composite_loop handle count content size offset d)
  unfolding composite_loop
  composite_loop-Grown handle zero content size offset d h = unchanged d
  composite_loop-Grown handle (suc count) content size offset d h =
      let payload_size = ntohl (take 4 (drop offset content)) in
      elim (Bool-cases (ltb size (offset + 4))) [
        | inl e ↦ rw e (unchanged d)
        | inr e ↦ rw e (elim (Bool-cases (ltb size (offset + 4 + payload_size))) [
          | inl f ↦ rw f (unchanged d)
          | inr f ↦ rw f (elim (Bool-cases (ltb payload_size base_size)) [
            | inl g ↦ rw g (unchanged d)
            | inr g ↦ rw g (
                next-Grown d _ _
                  (h (of_bytes (drop (offset + 4) content)) (payload_size - base_size) d)
                  (λ d'.
                    composite_loop-Grown handle count content size (offset + 4 + payload_size) d'
                      h))
          ])
        ])
      ]

  run_command-Grown :
      (handle : Payload → ℕ → Device → Handled) (asking left checked : Payload) (size : ℕ)
      (c : Command) (cmd : Bytes) (d : Device)
      → Trusted handle
      → dp_is_expired_compare now asking time ≡ (false, left)
      → dp_verify o left (size + base_size) pubkey ≡ (ok tt, checked)
      → find_command command_table (command_string checked) ≡ c
      → Grown d (run_command o pubkey phone handle c cmd (take size checked.payload) size d)
  unfolding run_command payload_cmd_composite
  run_command-Grown handle asking left checked size nothing cmd d h f s e = unchanged d
  run_command-Grown handle asking left checked size unknown cmd d h f s e = unchanged d
  run_command-Grown handle asking left checked size (act a) cmd d h f s e = (
    record { action = a; argument = take size checked.payload } ∷ [],
    refl,
    (
      record {
        asking = asking;
        size = size;
        left = left;
        checked = checked;
        fresh = f;
        signed = s;
        named = e;
        carried = refl;
      },
      tt,
    ),
  )
  run_command-Grown handle asking left checked size composite cmd d h f s e =
      elim (Bool-cases (ltb size 2)) [
        | inl small ↦ rw small (unchanged d)
        | inr large ↦ rw large (
            composite_loop-Grown handle (payload_count (take size checked.payload))
              (take size checked.payload) size 2 d h)
      ]

  verified-Grown :
      (handle : Payload → ℕ → Device → Handled) (asking left : Payload) (size : ℕ) (d : Device)
      (r : Result (Unit {0}) × Payload)
      → Trusted handle
      → dp_is_expired_compare now asking time ≡ (false, left)
      → dp_verify o left (size + base_size) pubkey ≡ r
      → Grown d (verified o pubkey phone handle left size d r)
  verified-Grown handle asking left size d (err e, p) h f s = unchanged d
  verified-Grown handle asking left size d (ok _, p) h f s =
      run_command-Grown handle asking left p size (find_command command_table (command_string p))
        (command_string p) _ h f s refl

  unexpired-Grown :
      (handle : Payload → ℕ → Device → Handled) (asking : Payload) (size : ℕ) (d : Device)
      (r : Bool × Payload)
      → Trusted handle
      → dp_is_expired_compare now asking time ≡ r
      → Grown d (unexpired o pubkey phone handle size d r)
  unexpired-Grown handle asking size d (true, p) h f = unchanged d
  unexpired-Grown handle asking size d (false, p) h f =
      verified-Grown handle asking p size d (dp_verify o p (size + base_size) pubkey) h f refl

  handle_fuel-Grown : (fuel : ℕ) → Trusted (handle_fuel o pubkey phone fuel now time)
  unfolding handle_fuel
  handle_fuel-Grown zero p n d = tt
  handle_fuel-Grown (suc fuel) p n d =
      unexpired-Grown (handle_fuel o pubkey phone fuel now time) p n d
        (dp_is_expired_compare now p time) (handle_fuel-Grown fuel) refl

  -- Every action that handling a payload makes the phone perform, directly or through composites to
  -- any depth, is named by a payload of its own, with that payload's data, and this payload was not
  -- expired and its signature was verified with the public key. Calls made before are kept.
  pub handle_one_payload-Grown :
      (p : Payload) (size : ℕ) (d : Device)
      → Grown d (handle_one_payload o pubkey phone now time p size d)
  unfolding handle_one_payload
  handle_one_payload-Grown p size d = handle_fuel-Grown (suc size) p size d
