-- ===== src/Payload/FieldLaws.antt =====
-- Setting and getting the fields of a payload.
use dumbos_dumbos.Base.{
  ℕ, zero, suc, ◌+◌, ◌-◌, ◌^◌, ◌≤◌, ◌<◌, ◌≡◌, refl, ap, ◌∙◌, false, [], ◌∷◌, ◌++◌, none, some,
  arith, Bytes, ok, err, length, take, replicate, set, take_all, length-take, length-append,
  length-set, take-append_ge, All-take, IsText, c_str, c_str_self, c_str-terminated, ltb, ◌==◌,
  if◌then◌else◌, Bool-cases, inl, inr, lt→not_leb, le→not_ltb, lt→ltb,
}
use dumbos_dumbos.Base.Errno.{eoverflow}
use dumbos_dumbos.Payload.{
  Payload, IsPayload, command_size, expire_size, base_size, dumb_payload_data_max_size, ntohl,
  htonl, to_bytes,
}
use dumbos_dumbos.Payload.Layout.{length-to_bytes}
use dumbos_dumbos.Payload.Fields.{
  strncpy, strnlen, dp_set_command, dp_get_command, dp_set_expire_str, dp_get_expire_str,
  dp_get_data_size, dp_set_data, data_of, dp_malloc_get_data, size_matches, dp_validate_size,
}

-- A field of 16 bytes that got a string of less: the string, and NUL to the end.
abbrev pub text_field : Bytes → Bytes
text_field s = set (strncpy s 16) 15 0

take-replicate : (n m : ℕ) → n ≤ m → take {A = ℕ} n (replicate m 0) ≡ replicate n 0
take-replicate zero m h = refl
take-replicate (suc n) zero h = absurd (omega arith)
take-replicate (suc n) (suc m) h = ap (λ (l : Bytes). 0 ∷ l) (take-replicate n m (omega arith))

pub strncpy_short : (s : Bytes) → length s < 16 → strncpy s 16 ≡ s ++ replicate (16 - length s) 0
strncpy_short s h =
    take-append_ge 16 s (replicate 16 0) (omega arith)
    ∙ ap (λ (l : Bytes). s ++ l) (take-replicate (16 - length s) 16 (omega arith))

set-append_zeros :
    (i : ℕ) (s : Bytes) (n : ℕ) → length s ≤ i → set (s ++ replicate n 0) i 0 ≡ s ++ replicate n 0
set-append_zeros i [] zero h = refl
set-append_zeros zero [] (suc n) h = refl
set-append_zeros (suc i) [] (suc n) h =
    ap (λ (l : Bytes). 0 ∷ l) (set-append_zeros i [] n (omega arith))
set-append_zeros zero (c ∷ s) n h = absurd (omega arith)
set-append_zeros (suc i) (c ∷ s) n h =
    ap (λ (l : Bytes). c ∷ l) (set-append_zeros i s n (omega arith))

pub text_field-short :
    (s : Bytes) → length s < 16 → text_field s ≡ s ++ 0 ∷ replicate (15 - length s) 0
text_field-short s h =
    ap (λ (l : Bytes). set l 15 0) (strncpy_short s h)
    ∙ set-append_zeros 15 s (16 - length s) (omega arith)
    ∙ ap (λ (n : ℕ). s ++ replicate n 0) {y = suc (15 - length s)} (omega arith)

pub length-text_field : (s : Bytes) → length (text_field s) ≡ 16
length-text_field s = omega (
  arith,
  length-set {0} (strncpy s 16) 15 0,
  length-take {0} 16 (s ++ replicate 16 0),
  length-append {0} s (replicate 16 0),
)

c_str-text_field : (s : Bytes) → IsText s → length s < 16 → c_str (text_field s) ≡ s
c_str-text_field s text h =
    ap c_str (text_field-short s h) ∙ c_str-terminated s (replicate (15 - length s) 0) text

strnlen_text : (s : Bytes) → IsText s → length s < 16 → strnlen s 16 ≡ length s
strnlen_text s text h =
    ap (λ (l : Bytes). length (c_str l)) (take_all 16 s (omega arith))
    ∙ ap (λ (l : Bytes). length l) (c_str_self s text)

strnlen-text_field : (s : Bytes) → IsText s → length s < 16 → strnlen (text_field s) 16 ≡ length s
strnlen-text_field s text h =
    ap (λ (l : Bytes). length (c_str l))
      (take_all 16 (text_field s) (omega (arith, length-text_field s)))
    ∙ ap (λ (l : Bytes). length l) (c_str-text_field s text h)

strnlen_long : (s : Bytes) → IsText s → 16 ≤ length s → strnlen s 16 ≡ 16
strnlen_long s text h =
    ap (λ (l : Bytes). length l) (c_str_self (take 16 s) (All-take _ 16 s text))
    ∙ omega (arith, length-take {0} 16 s)

-- The command of a payload: a text of less than COMMAND_SIZE characters is set and got back, the
-- other fields stay and the field keeps its size; a longer text is refused with EOVERFLOW.
pub dp_get_command-dp_set_command :
    (p : Payload) (command : Bytes)
    → IsText command
    → (length command < command_size
        → (p' : Payload) × (dp_set_command p command ≡ ok p')
          × (dp_get_command p' ≡ ok command)
          × (p' ≡ record p { command = p'.command })
          × (length p'.command ≡ command_size))
      × (command_size ≤ length command → dp_set_command p command ≡ err eoverflow)
unfolding dp_set_command dp_get_command
dp_get_command-dp_set_command p command text = (
  λ short. (
    record p { command = text_field command },
    rw (strnlen_text command text short, lt→not_leb 16 (length command) short) refl,
    rw (strnlen-text_field command text short, lt→not_leb 16 (length command) short)
        (ap ok (c_str-text_field command text short)),
    refl,
    length-text_field command,
  ),
  λ long. rw (strnlen_long command text long) refl,
)

pub dp_set_expire_str-text_field :
    (p : Payload) (s : Bytes)
    → IsText s
    → length s < expire_size
    → dp_set_expire_str p s ≡ ok (record p { expire = text_field s })
unfolding dp_set_expire_str
dp_set_expire_str-text_field p s text short =
    rw (strnlen_text s text short, lt→not_leb 16 (length s) short) refl

-- The expire string of a payload, in the same way.
pub dp_get_expire_str-dp_set_expire_str :
    (p : Payload) (s : Bytes)
    → IsText s
    → (length s < expire_size
        → (p' : Payload) × (dp_set_expire_str p s ≡ ok p')
          × (dp_get_expire_str p' ≡ ok s)
          × (p' ≡ record p { expire = p'.expire })
          × (length p'.expire ≡ expire_size))
      × (expire_size ≤ length s → dp_set_expire_str p s ≡ err eoverflow)
unfolding dp_set_expire_str dp_get_expire_str
dp_get_expire_str-dp_set_expire_str p s text = (
  λ short. (
    record p { expire = text_field s },
    rw (strnlen_text s text short, lt→not_leb 16 (length s) short) refl,
    rw (strnlen-text_field s text short, lt→not_leb 16 (length s) short)
        (ap ok (c_str-text_field s text short)),
    refl,
    length-text_field s,
  ),
  λ long. rw (strnlen_long s text long) refl,
)

pub ntohl-htonl : (n : ℕ) → n < 2 ^ 32 → ntohl (htonl n) ≡ n
ntohl-htonl n h = omega arith

abbrev with_payload : Payload → Bytes → Payload
with_payload p data' = record p { data_size = htonl (length data'); payload = data' }

get_data_size-htonl :
    (p : Payload) (n : ℕ)
    → n ≤ dumb_payload_data_max_size
    → p.data_size ≡ htonl n
    → dp_get_data_size p ≡ ok n
unfolding dp_get_data_size
get_data_size-htonl p n h e =
    rw (e, ntohl-htonl n (omega arith), le→not_ltb dumb_payload_data_max_size n h) refl

data_of_whole :
    (p : Payload)
    → data_of p (ok (length p.payload))
      ≡ ok (if length p.payload == 0 then none else some p.payload)
data_of_whole p = elim (Bool-cases (length p.payload == 0)) [
  | inl e ↦ rw e refl
  | inr e ↦ rw (e, take_all (length p.payload) p.payload (omega arith)) refl
]

validates :
    (n size : ℕ)
    → (if ltb size base_size then false else size_matches (ok n) size) ≡ (size == base_size + n)
validates n size = ground arith

-- Data of at most DUMB_PAYLOAD_DATA_MAX_SIZE bytes is set and got back, `none` where there is none;
-- the payload then has the size that dp_validate_size accepts and no other, which is the number of
-- its bytes. More data is refused with EOVERFLOW.
pub dp_get_data-dp_set_data :
    (p : Payload) (data' : Bytes)
    → IsPayload p
    → (length data' ≤ dumb_payload_data_max_size
        → (p' : Payload) × (dp_set_data p data' ≡ ok p')
          × (dp_malloc_get_data p' ≡ ok (if length data' == 0 then none else some data'))
          × ((size : ℕ) → dp_validate_size p' size ≡ (size == base_size + length data'))
          × (length (to_bytes p') ≡ base_size + length data'))
      × (dumb_payload_data_max_size < length data' → dp_set_data p data' ≡ err eoverflow)
unfolding dp_set_data dp_malloc_get_data dp_validate_size
dp_get_data-dp_set_data p data' wf = (
  λ fits. (
    with_payload p data',
    rw (le→not_ltb dumb_payload_data_max_size (length data') fits) refl,
    rw (get_data_size-htonl (with_payload p data') (length data') fits refl)
        (data_of_whole (with_payload p data')),
    λ size.
        rw (get_data_size-htonl (with_payload p data') (length data') fits refl)
          (validates (length data') size),
    length-to_bytes (with_payload p data') (record {
      signature_length = wf.signature_length;
      expire_length = wf.expire_length;
      command_length = wf.command_length;
      padding_length = wf.padding_length;
      data_size_length = refl;
    }),
  ),
  λ big. rw (lt→ltb dumb_payload_data_max_size (length data') big) refl,
)
