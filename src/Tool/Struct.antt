-- ===== src/Tool/Struct.antt =====
-- The bytes of a payload that the tool writes.
use dumbos_dumbos.Base.{
  ℕ, ◌+◌, ◌≡◌, ap, ◌∙◌, sym, [], ◌++◌, append_assoc, append-nil, arith, Bytes, length, take,
  length-append, take-append_ge,
}
use dumbos_dumbos.Payload.{Payload, IsPayload, base_size, to_bytes}
use dumbos_dumbos.Tool.{struct_bytes}

abbrev header : Payload → Bytes
header p = p.signature ++ (p.expire ++ (p.command ++ (p.padding ++ p.data_size)))

-- The struct, then what stands behind it.
to_bytes-header :
    (p : Payload) (content : Bytes)
    → to_bytes (record p { payload = content }) ≡ header p ++ content
unfolding to_bytes
to_bytes-header p content = simp append_assoc

length-header : (p : Payload) → IsPayload p → length (header p) ≡ base_size
length-header p h = omega (
  arith,
  h.signature_length,
  h.expire_length,
  h.command_length,
  h.padding_length,
  h.data_size_length,
  length-append {0} p.signature (p.expire ++ (p.command ++ (p.padding ++ p.data_size))),
  length-append {0} p.expire (p.command ++ (p.padding ++ p.data_size)),
  length-append {0} p.command (p.padding ++ p.data_size),
  length-append {0} p.padding p.data_size,
)

-- A payload that is written with as many bytes of its data as `n`.
pub struct_bytes_data :
    (p : Payload) (n : ℕ)
    → IsPayload p
    → struct_bytes p (base_size + n) ≡ to_bytes (record p { payload = take n p.payload })
struct_bytes_data p n h =
    ap (λ (b : Bytes). take (base_size + n) b) (to_bytes-header p p.payload)
    ∙ take-append_ge (base_size + n) (header p) p.payload (omega (arith, length-header p h))
    ∙ ap (λ (k : ℕ). header p ++ take k p.payload) (omega (arith, length-header p h))
    ∙ sym (to_bytes-header p (take n p.payload))

-- The struct with `content` behind it.
pub struct_bytes-append :
    (p : Payload) (content : Bytes)
    → IsPayload p
    → struct_bytes p base_size ++ content ≡ to_bytes (record p { payload = content })
struct_bytes-append p content h =
    ap (λ (b : Bytes). b ++ content)
      (struct_bytes_data p 0 h ∙ to_bytes-header p [] ∙ append-nil (header p))
    ∙ sym (to_bytes-header p content)
