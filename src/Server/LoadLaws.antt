-- ===== src/Server/LoadLaws.antt =====
-- What dp_malloc_check_load returns and leaves on disk.
use dumbos_dumbos.Base.{
  ℕ, ◌≤◌, ◌≡◌, refl, Bool, true, false, ◌||◌, Option, none, some, Bytes, length, leb, ltb,
  Bool-cases, inl, inr, subst, not_ltb,
}
use dumbos_dumbos.Chars.{check_allowed_chars, secret_code_allowed_chars}
use dumbos_dumbos.Ed25519.{Openssl}
use dumbos_dumbos.Payload.{Payload, base_size, to_bytes, of_bytes}
use dumbos_dumbos.Payload.Expire.{dp_is_expired}
use dumbos_dumbos.Payload.Sign.{dp_sign}
use dumbos_dumbos.Files.{Files, insert, Exists, Exists-insert}
use dumbos_dumbos.Server.{Times, path_max}
use dumbos_dumbos.Server.Load.{
  shared_path, user_path, open_code, signed_payload, write_and_sign, load_file,
  dp_malloc_check_load,
}

-- The loader removes no file.
write_and_sign_keeps :
    (o : Openssl) (path other : Bytes) (size : ℕ) (key : Bytes) (fs : Files) (r : Bool × Payload)
    → Exists other fs
    → Exists other (write_and_sign o path size key fs r).1
write_and_sign_keeps o path other size key fs (true, p) h = h
write_and_sign_keeps o path other size key fs (false, p) h =
    Exists-insert other path (to_bytes p) fs h

load_file_keeps :
    (o : Openssl) (key : Bytes) (t : Times) (fs : Files) (other : Bytes)
    (f : Option (Bytes × Bytes))
    → Exists other fs
    → Exists other (load_file o key t fs f).1
unfolding load_file
load_file_keeps o key t fs other none h = h
load_file_keeps o key t fs other (some (path, content)) h =
    elim (Bool-cases (ltb (length content) base_size)) [
      | inl e ↦ rw e h
      | inr e ↦ rw e (write_and_sign_keeps o path other (length content) key fs _ h)
    ]

pub dp_malloc_check_load_keeps :
    (o : Openssl) (code username key : Bytes) (t : Times) (fs : Files) (other : Bytes)
    → Exists other fs
    → Exists other (dp_malloc_check_load o code username key t fs).1
unfolding dp_malloc_check_load
dp_malloc_check_load_keeps o code username key t fs other h =
    elim (Bool-cases (check_allowed_chars code secret_code_allowed_chars)) [
      | inr e ↦ rw e h
      | inl e ↦
          rw e
            (elim (Bool-cases (
              leb path_max (length (shared_path code))
              || leb path_max (length (user_path username code)))) [
                | inl long ↦ rw long h
                | inr short ↦
                    rw short (load_file_keeps o key t fs other (open_code username code fs) h)
              ])
    ]

-- What a load that returned a payload did: it opened a file, found it not expired, wrote it back
-- with its expiry fixed, and signed it.
pub record Loaded (o : Openssl) (code username key : Bytes) (t : Times) (fs fs' : Files)
    (body : Bytes) : Type 0 where
  pub path : Bytes
  pub content : Bytes
  pub fixed : Payload
  pub allowed : check_allowed_chars code secret_code_allowed_chars ≡ true
  pub short :
      (leb path_max (length (shared_path code)) || leb path_max (length (user_path username code)))
      ≡ false
  pub opened : open_code username code fs ≡ some (path, content)
  pub whole : base_size ≤ length content
  pub fresh : dp_is_expired t.at_set t.at_compare (of_bytes content) ≡ (false, fixed)
  pub written : fs' ≡ insert path (to_bytes fixed) fs
  pub signed : signed_payload (dp_sign o fixed (length content) key) ≡ some body

abbrev Served : Openssl → Bytes → Bytes → Bytes → Times → Files → Option Bytes × Files → Type 0
Served o code username key t fs (none, fs') = Unit
Served o code username key t fs (some body, fs') = Loaded o code username key t fs fs' body

module _ (o : Openssl) (code username key : Bytes) (t : Times) (fs : Files) where
  abbrev Steps : Bytes → Bytes → Type 0
  Steps path content =
      (check_allowed_chars code secret_code_allowed_chars ≡ true)
      × ((leb path_max (length (shared_path code))
            || leb path_max (length (user_path username code)))
          ≡ false)
      × (open_code username code fs ≡ some (path, content))
      × (base_size ≤ length content)

  signed_Served :
      (path content : Bytes) (fixed : Payload) (r : Option Bytes)
      → Steps path content
      → dp_is_expired t.at_set t.at_compare (of_bytes content) ≡ (false, fixed)
      → signed_payload (dp_sign o fixed (length content) key) ≡ r
      → Served o code username key t fs (r, insert path (to_bytes fixed) fs)
  signed_Served path content fixed none s f e = tt
  signed_Served path content fixed (some body) (a, l, op, w) f e = record {
    path = path;
    content = content;
    fixed = fixed;
    allowed = a;
    short = l;
    opened = op;
    whole = w;
    fresh = f;
    written = refl;
    signed = e;
  }

  write_and_sign-Served :
      (path content : Bytes) (r : Bool × Payload)
      → Steps path content
      → dp_is_expired t.at_set t.at_compare (of_bytes content) ≡ r
      → Served o code username key t fs (write_and_sign o path (length content) key fs r)
  write_and_sign-Served path content (true, p) s e = tt
  write_and_sign-Served path content (false, p) s e = signed_Served path content p _ s e refl

  load_file-Served :
      (f : Option (Bytes × Bytes))
      → check_allowed_chars code secret_code_allowed_chars ≡ true
      → (leb path_max (length (shared_path code))
          || leb path_max (length (user_path username code)))
        ≡ false
      → open_code username code fs ≡ f
      → Served o code username key t fs (load_file o key t fs f)
  unfolding load_file
  load_file-Served none a l e = tt
  load_file-Served (some (path, content)) a l e =
      elim (Bool-cases (ltb (length content) base_size)) [
        | inl small ↦ rw small tt
        | inr whole ↦ rw whole (
            write_and_sign-Served path content _ (a, l, e, not_ltb (length content) base_size whole)
              refl)
      ]

  load-Served : Served o code username key t fs (dp_malloc_check_load o code username key t fs)
  unfolding dp_malloc_check_load
  load-Served = elim (Bool-cases (check_allowed_chars code secret_code_allowed_chars)) [
    | inr e ↦ rw e tt
    | inl e ↦
        rw e
          (elim (Bool-cases (
            leb path_max (length (shared_path code))
            || leb path_max (length (user_path username code)))) [
              | inl long ↦ rw long tt
              | inr short ↦ rw short (load_file-Served (open_code username code fs) e short refl)
            ])
  ]

  pub load-Loaded :
      (fs' : Files) (body : Bytes)
      → dp_malloc_check_load o code username key t fs ≡ (some body, fs')
      → Loaded o code username key t fs fs' body
  load-Loaded fs' body h = subst (λ r. Served o code username key t fs r) h load-Served
