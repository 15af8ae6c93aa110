-- ===== src/Payload/Layout.antt =====
-- The struct and the bytes at its address.
use dumbos_dumbos.Base.{
  ◌+◌, ◌-◌, ◌≤◌, ◌≡◌, refl, ◌++◌, arith, Bytes, length, drop, length-append, length-take,
  length-drop, take-append-drop, take-append, drop-append, sym,
}
use dumbos_dumbos.Payload.{Payload, IsPayload, base_size, to_bytes, of_bytes}

-- The fields of a cast buffer are the buffer again, and a buffer of the size of the struct or more
-- gives fields of their sizes.
pub to_bytes-of_bytes :
    (b : Bytes) → (to_bytes (of_bytes b) ≡ b) × (base_size ≤ length b → IsPayload (of_bytes b))
unfolding to_bytes of_bytes
to_bytes-of_bytes b = (simp take-append-drop, λ h. lengths h)
  where
    d1 : length (drop 129 b) ≡ length b - 129
    d1 = length-drop 129 b

    d2 : length (drop 16 (drop 129 b)) ≡ length b - 145
    d2 = omega (arith, length-drop 16 (drop 129 b), d1)

    d3 : length (drop 16 (drop 16 (drop 129 b))) ≡ length b - 161
    d3 = omega (arith, length-drop 16 (drop 16 (drop 129 b)), d2)

    d4 : length (drop 3 (drop 16 (drop 16 (drop 129 b)))) ≡ length b - 164
    d4 = omega (arith, length-drop 3 (drop 16 (drop 16 (drop 129 b))), d3)

    lengths : base_size ≤ length b → IsPayload (of_bytes b)
    lengths h = record {
      signature_length = omega (arith, length-take 129 b);
      expire_length = omega (arith, length-take 16 (drop 129 b), d1);
      command_length = omega (arith, length-take 16 (drop 16 (drop 129 b)), d2);
      padding_length = omega (arith, length-take 3 (drop 16 (drop 16 (drop 129 b))), d3);
      data_size_length = omega (arith, length-take 4 (drop 3 (drop 16 (drop 16 (drop 129 b)))), d4);
    }

pub length-to_bytes :
    (p : Payload) → IsPayload p → length (to_bytes p) ≡ base_size + length p.payload
unfolding to_bytes
length-to_bytes p h = omega (
  arith,
  length-append {0} p.signature
      (p.expire ++ (p.command ++ (p.padding ++ (p.data_size ++ p.payload)))),
  length-append {0} p.expire (p.command ++ (p.padding ++ (p.data_size ++ p.payload))),
  length-append {0} p.command (p.padding ++ (p.data_size ++ p.payload)),
  length-append {0} p.padding (p.data_size ++ p.payload),
  length-append {0} p.data_size p.payload,
)

-- A payload is read back from its bytes.
pub of_bytes-to_bytes : (p : Payload) → IsPayload p → of_bytes (to_bytes p) ≡ p
unfolding of_bytes to_bytes
of_bytes-to_bytes p h =
    let e1 =
      drop-append 129 p.signature
        (p.expire ++ (p.command ++ (p.padding ++ (p.data_size ++ p.payload))))
        (sym h.signature_length) in
    let e2 =
      drop-append 16 p.expire (p.command ++ (p.padding ++ (p.data_size ++ p.payload)))
        (sym h.expire_length) in
    let e3 =
      drop-append 16 p.command (p.padding ++ (p.data_size ++ p.payload)) (sym h.command_length) in
    let e4 = drop-append 3 p.padding (p.data_size ++ p.payload) (sym h.padding_length) in
    rw
      (
        e1,
        e2,
        e3,
        e4,
        drop-append 4 p.data_size p.payload (sym h.data_size_length),
        take-append 129 p.signature
            (p.expire ++ (p.command ++ (p.padding ++ (p.data_size ++ p.payload))))
            (sym h.signature_length),
        take-append 16 p.expire (p.command ++ (p.padding ++ (p.data_size ++ p.payload)))
            (sym h.expire_length),
        take-append 16 p.command (p.padding ++ (p.data_size ++ p.payload)) (sym h.command_length),
        take-append 3 p.padding (p.data_size ++ p.payload) (sym h.padding_length),
        take-append 4 p.data_size p.payload (sym h.data_size_length),
      )
      refl
