-- ===== src/Server/Reopen.antt =====
-- server/src/dp_load.c: a file that the loader wrote is opened again, with a fixed expiry.
use dumbos_dumbos.Base.{
  ℕ, zero, suc, ◌≤◌, ◌<◌, ◌≡◌, refl, ap, sym, Bool, true, false, [], Option, none, some, arith,
  Bytes, length, subst, le→leb, streq,
}
use dumbos_dumbos.Base.Int.{ℤ, pos, ◌≤ℤ◌}
use dumbos_dumbos.Payload.{Payload, IsPayload, base_size, of_bytes}
use dumbos_dumbos.Payload.Layout.{to_bytes-of_bytes}
use dumbos_dumbos.Payload.Expire.{dp_get_expire, dp_is_expired, dp_get_expire_or_set, is_past}
use dumbos_dumbos.Payload.ExpireLaws.{dp_get_expire_or_set-SameBut, get_or_set-known}
use dumbos_dumbos.Files.{Files, lookup, insert, lookup-insert, lookup-insert_self}
use dumbos_dumbos.Server.Load.{shared_path, user_path, or_shared, open_code}

paths_differ : (username code : Bytes) → streq (shared_path code) (user_path username code) ≡ false
unfolding streq
paths_differ username code = refl

reopen_own :
    (username code content : Bytes) (fs : Files)
    → open_code username code (insert (user_path username code) content fs)
      ≡ some (user_path username code, content)
unfolding open_code
reopen_own username code content fs =
    rw (lookup-insert_self (user_path username code) content fs) refl

reopen_shared :
    (username code content : Bytes) (fs : Files)
    → lookup (user_path username code) fs ≡ none
    → open_code username code (insert (shared_path code) content fs)
      ≡ some (shared_path code, content)
unfolding open_code
reopen_shared username code content fs h =
    rw
      (
        lookup-insert (shared_path code) (user_path username code) content fs,
        paths_differ username code,
        h,
        or_shared,
        lookup-insert_self (shared_path code) content fs,
      )
      refl

-- The path that was opened is opened again after it was written.
pub reopen :
    (username code path content content' : Bytes) (fs : Files)
    → open_code username code fs ≡ some (path, content)
    → open_code username code (insert path content' fs) ≡ some (path, content')
unfolding open_code
reopen username code path content content' fs h = own (lookup (user_path username code) fs) refl h
  where
    fst_of : Option (Bytes × Bytes) → Bytes
    fst_of none = []
    fst_of (some r) = r.0

    at_path :
        (q : Bytes)
        → q ≡ path
        → open_code username code (insert q content' fs) ≡ some (q, content')
        → open_code username code (insert path content' fs) ≡ some (path, content')
    at_path q e h =
        subst (λ r. open_code username code (insert r content' fs) ≡ some (r, content')) e h

    shared :
        (g : Option Bytes)
        → lookup (user_path username code) fs ≡ none
        → lookup (shared_path code) fs ≡ g
        → or_shared code fs none (user_path username code) ≡ some (path, content)
        → open_code username code (insert path content' fs) ≡ some (path, content')
    shared none u e k = cc (rw (e, or_shared) at k)
    shared (some c) u e k =
        at_path (shared_path code) (ap fst_of (rw (e, or_shared) at k))
          (reopen_shared username code content' fs u)

    own :
        (f : Option Bytes)
        → lookup (user_path username code) fs ≡ f
        → or_shared code fs f (user_path username code) ≡ some (path, content)
        → open_code username code (insert path content' fs) ≡ some (path, content')
    own (some c) e k =
        at_path (user_path username code) (ap fst_of k) (reopen_own username code content' fs)
    own none e k = shared (lookup (shared_path code) fs) e refl k

pub is_expired-set :
    (set' compare' : ℤ) (p q : Payload)
    → dp_is_expired set' compare' p ≡ (false, q)
    → q ≡ (dp_get_expire_or_set set' p).1
unfolding dp_is_expired
is_expired-set set' compare' p q h = sym (ap (λ (r : Bool × Payload). r.1) h)

is_past_at : (n : ℕ) (now : ℤ) → 0 < n → pos n ≤ℤ now → is_past (pos n) now ≡ true
is_past_at zero now h k = absurd (omega arith)
is_past_at (suc n) now h k = le→leb _ _ k

pub is_expired_known :
    (p : Payload) (n : ℕ) (set' compare' : ℤ)
    → dp_get_expire p ≡ pos n
    → 0 < n
    → pos n ≤ℤ compare'
    → dp_is_expired set' compare' p ≡ (true, p)
unfolding dp_is_expired
is_expired_known p n set' compare' e h k =
    rw (get_or_set-known p (pos n) set' e refl)
      (ap (λ (b : Bool). (b, p)) (is_past_at n compare' h k))

-- The payload of a file, with its expiry fixed, has the sizes of its fields.
pub fixed-IsPayload :
    (content : Bytes) (now : ℤ)
    → base_size ≤ length content
    → IsPayload (dp_get_expire_or_set now (of_bytes content)).1
fixed-IsPayload content now whole =
    let (e, same, len) = dp_get_expire_or_set-SameBut now (of_bytes content) in
    let wf = (to_bytes-of_bytes content).1 whole in
    subst IsPayload (sym same) (record {
      signature_length = wf.signature_length;
      expire_length = len wf.expire_length;
      command_length = wf.command_length;
      padding_length = wf.padding_length;
      data_size_length = wf.data_size_length;
    })
