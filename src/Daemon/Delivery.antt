-- ===== src/Daemon/Delivery.antt =====
-- From the server's dp_load.c to the daemon's secret_code.c: a code that is served is run.
use dumbos_dumbos.Base.{
  ℕ, ◌+◌, ◌-◌, ◌≤◌, ◌≡◌, refl, ap, ◌∙◌, Bool, true, false, some, arith, Bytes, codes, Result, ok,
  err-ne-ok, length, take, ltb, ◌==◌, Bool-cases, inl, inr, not_ltb,
}
use dumbos_dumbos.Base.Int.{ℤ, pos}
use dumbos_dumbos.Ed25519.{Openssl, IsEd25519}
use dumbos_dumbos.Ed25519.Laws.{IsKeyPair}
use dumbos_dumbos.Payload.{Payload, base_size, of_bytes}
use dumbos_dumbos.Payload.Fields.{dp_validate_size}
use dumbos_dumbos.Payload.Expire.{dp_get_expire, dp_is_expired_compare, is_past}
use dumbos_dumbos.Payload.ExpireLaws.{get_or_set-known}
use dumbos_dumbos.Payload.Sign.{dp_verify, zero_signature}
use dumbos_dumbos.Files.{Files}
use dumbos_dumbos.Server.{Times}
use dumbos_dumbos.Server.Load.{dp_malloc_check_load}
use dumbos_dumbos.Server.ReloadLaws.{dp_malloc_check_load-dp_verify}
use dumbos_dumbos.Daemon.{Action, Device, Phone, write_message, run_action}
use dumbos_dumbos.Daemon.Payloads.{
  act, command_table, find_command, command_string, run_command, verified, unexpired, handle_fuel,
  handle_one_payload,
}

dp_verify_leaves :
    (o : Openssl) (p : Payload) (size : ℕ) (key : Bytes)
    → (dp_verify o p size key).0 ≡ ok tt
    → dp_verify o p size key ≡ (ok tt, zero_signature p)
unfolding dp_verify
dp_verify_leaves o p size key h = elim (Bool-cases (length key == 64)) [
  | inr e ↦ absurd (err-ne-ok (rw e at h))
  | inl e ↦ rw e (elim (Bool-cases (dp_validate_size p size)) [
    | inr f ↦ absurd (err-ne-ok (rw (e, f) at h))
    | inl f ↦ rw f (ap (λ (r : Result (Unit {0})). (r, zero_signature p)) (rw (e, f) at h))
  ])
]

dp_is_expired_compare-known :
    (p : Payload) (n : ℕ) (now time : ℤ)
    → dp_get_expire p ≡ pos n
    → is_past (pos n) time ≡ false
    → dp_is_expired_compare now p time ≡ (false, p)
unfolding dp_is_expired_compare
dp_is_expired_compare-known p n now time e h =
    rw (get_or_set-known p (pos n) now e refl) (ap (λ (b : Bool). (b, p)) h)

valid_size : (p : Payload) (n : ℕ) → dp_validate_size p n ≡ true → base_size ≤ n
unfolding dp_validate_size
valid_size p n h = elim (Bool-cases (ltb n base_size)) [
  | inl e ↦ cc (rw e at h)
  | inr e ↦ not_ltb n base_size e
]

-- What the client is told before the command runs.
abbrev pub announced : Bytes → Device → Device
announced cmd d =
    write_message cmd (write_message (codes "command is") (write_message (codes "loading...") d))

module _ (o : Openssl) (public_hex : Bytes) (phone : Phone) (now time : ℤ) where
  accepted_runs :
      (p : Payload) (size : ℕ) (a : Action) (d : Device)
      → dp_is_expired_compare now p time ≡ (false, p)
      → dp_verify o p (size + base_size) public_hex ≡ (ok tt, zero_signature p)
      → find_command command_table (command_string p) ≡ act a
      → handle_one_payload o public_hex phone now time p size d
        ≡ some (run_action phone a (take size p.payload) (announced (command_string p) d))
  unfolding handle_one_payload handle_fuel run_command
  accepted_runs p size a d fresh signed named =
      let inner = handle_fuel o public_hex phone size now time in
      ap (λ (r : Bool × Payload). unexpired o public_hex phone inner size d r) fresh
      ∙ ap (λ (r : Result (Unit {0}) × Payload). verified o public_hex phone inner p size d r)
          signed
      ∙ ap
          (λ c.
            run_command o public_hex phone inner c (command_string p) (take size p.payload) size
              (announced (command_string p) d))
          named

-- From the server to the phone: when dp_malloc_check_load served a code whose size is the one of its
-- data_size field and whose command is an action, and the daemon, which holds the public key of the
-- server's pair, handles the bytes before their expiry, or at any time when that is 0, then the phone
-- performs this action with the data of the payload, and nothing else, if OpenSSL keeps its
-- documented contract.
pub dp_malloc_check_load-handle_one_payload :
    (o : Openssl) (code username private_hex public_hex : Bytes) (t : Times) (fs fs' : Files)
    (body : Bytes) (phone : Phone) (now time : ℤ) (n : ℕ) (a : Action) (d : Device)
    → IsEd25519 o
    → IsKeyPair o private_hex public_hex
    → dp_malloc_check_load o code username private_hex t fs ≡ (some body, fs')
    → dp_validate_size (of_bytes body) (length body) ≡ true
    → dp_get_expire (of_bytes body) ≡ pos n
    → is_past (pos n) time ≡ false
    → find_command command_table (command_string (of_bytes body)) ≡ act a
    → handle_one_payload o public_hex phone now time (of_bytes body) (length body - base_size) d
      ≡ some (
          run_action phone a
            (take (length body - base_size) (of_bytes body).payload)
            (announced (command_string (of_bytes body)) d))
dp_malloc_check_load-handle_one_payload o code username private_hex public_hex t fs fs' body phone
      now time n a d law pair served valid expire fresh named =
    let p = of_bytes body in
    let whole : length body - base_size + base_size ≡ length body =
      omega (arith, valid_size p (length body) valid) in
    accepted_runs o public_hex phone now time p (length body - base_size) a d
      (dp_is_expired_compare-known p n now time expire fresh)
      (dp_verify_leaves o p (length body - base_size + base_size) public_hex (
        ap (λ (k : ℕ). (dp_verify o p k public_hex).0) whole
        ∙ dp_malloc_check_load-dp_verify o code username private_hex public_hex t fs fs' body law
            pair served valid))
      named
