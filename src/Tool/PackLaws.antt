-- ===== src/Tool/PackLaws.antt =====
-- server/src/dumb-tool-cmd-set.c and daemon/payload_cmd.c: what the tool packs, the daemon unpacks.
use dumbos_dumbos.Base.{
  ℕ, ◌+◌, ◌-◌, ◌≤◌, ◌<◌, ◌≡◌, refl, ap, ap₂, ◌∙◌, sym, List, [], ◌∷◌, ◌++◌, append_assoc, arith,
  Bytes, length, drop, length-append, drop-append, drop-append_ge, Option, some, le→not_ltb,
}
use dumbos_dumbos.Base.Int.{pos}
use dumbos_dumbos.Files.{Files, lookup}
use dumbos_dumbos.Stream.{htons}
use dumbos_dumbos.Payload.{Payload, base_size, of_bytes, htonl}
use dumbos_dumbos.Payload.FieldLaws.{ntohl-htonl}
use dumbos_dumbos.Daemon.{Device}
use dumbos_dumbos.Daemon.Payloads.{Handled, next, composite_loop, payload_cmd_composite}
use dumbos_dumbos.Tool.Sets.{pack, pack_found}

-- Payloads, each behind its size.
abbrev packed : List Bytes → Bytes
packed [] = []
packed (c ∷ cs) = htonl (length c) ++ (c ++ packed cs)

-- The payloads one after another, until one fails.
abbrev pub in_turn : (Payload → ℕ → Device → Handled) → List Bytes → Device → Handled
in_turn handle [] d = some (pos 0, d)
in_turn handle (c ∷ cs) d =
    next (handle (of_bytes (c ++ packed cs)) (length c - base_size) d) (λ d'. in_turn handle cs d')

-- The files are there, and each has room for the struct and a size of 32 bits.
abbrev pub AreFound : Files → List Bytes → List Bytes → Type 0
AreFound fs [] [] = Unit
AreFound fs [] (c ∷ cs) = ⊥
AreFound fs (n ∷ ns) [] = ⊥
AreFound fs (n ∷ ns) (c ∷ cs) =
    (lookup n fs ≡ some c) × (base_size ≤ length c) × (length c < 4294967296) × AreFound fs ns cs

pack-AreFound : (fs : Files) (ns cs : List Bytes) → AreFound fs ns cs → pack ns fs ≡ (0, packed cs)
unfolding pack
pack-AreFound fs [] [] h = refl
pack-AreFound fs [] (c ∷ cs) h = absurd h
pack-AreFound fs (n ∷ ns) [] h = absurd h
pack-AreFound fs (n ∷ ns) (c ∷ cs) (found, _, small, h) =
    ap₂ (λ (o : Option Bytes) (r : ℕ × Bytes). pack_found o r) found (pack-AreFound fs ns cs h)
    ∙ ap (λ (k : ℕ). (0, htonl k ++ (c ++ packed cs))) {y = length c} (omega (arith, small))

module _ (handle : Payload → ℕ → Device → Handled) (fs : Files) where
  composite_loop-packed :
      (ns cs : List Bytes) (before : Bytes) (d : Device)
      → AreFound fs ns cs
      → composite_loop handle
          (length ns)
          (before ++ packed cs)
          (length before + length (packed cs))
          (length before)
          d
        ≡ in_turn handle cs d
  unfolding composite_loop
  composite_loop-packed [] [] before d h = refl
  composite_loop-packed [] (c ∷ cs) before d h = absurd h
  composite_loop-packed (n ∷ ns) [] before d h = absurd h
  composite_loop-packed (n ∷ ns) (c ∷ cs) before d (found, big, small, h) =
      rw
        (
          drop-append (length before) before (htonl (length c) ++ (c ++ packed cs)) refl,
          ntohl-htonl (length c) small,
          le→not_ltb (length before + length (packed (c ∷ cs))) (length before + 4)
              (omega (arith, whole)),
          le→not_ltb (length before + length (packed (c ∷ cs))) (length before + 4 + length c)
              (omega (arith, whole)),
          le→not_ltb (length c) base_size big,
        )
        (λ i.
          next (handle (of_bytes (rest i)) (length c - base_size) d)
            (λ d'. others d' (composite_loop-packed ns cs so_far d' h) i))
    where
      whole : length (packed (c ∷ cs)) ≡ 4 + (length c + length (packed cs))
      whole = omega (arith, length-append {0} c (packed cs))

      rest : drop (length before + 4) (before ++ packed (c ∷ cs)) ≡ c ++ packed cs
      rest =
          drop-append_ge (length before + 4) before (packed (c ∷ cs)) (omega arith)
          ∙ ap (λ (k : ℕ). drop k (packed (c ∷ cs))) {y = 4} (omega arith)

      so_far : Bytes
      so_far = before ++ (htonl (length c) ++ c)

      long : length so_far ≡ length before + 4 + length c
      long = omega (arith, length-append {0} before (htonl (length c) ++ c))

      others :
          (d' : Device)
          → composite_loop handle
              (length ns)
              (so_far ++ packed cs)
              (length so_far + length (packed cs))
              (length so_far)
              d'
            ≡ in_turn handle cs d'
          → composite_loop handle
              (length ns)
              (before ++ packed (c ∷ cs))
              (length before + length (packed (c ∷ cs)))
              (length before + 4 + length c)
              d'
            ≡ in_turn handle cs d'
      others d' ih =
          ap
            (λ (b : Bytes).
              composite_loop handle (length ns) b (length before + length (packed (c ∷ cs)))
                (length before + 4 + length c) d')
            (sym (append_assoc before (htonl (length c) ++ c) (packed cs)))
          ∙ ap₂
              (λ (size offset : ℕ).
                composite_loop handle (length ns) (so_far ++ packed cs) size offset d')
              {y = length so_far + length (packed cs)} (omega (arith, whole, long)) (sym long)
          ∙ ih

  -- What the tool packs, the daemon unpacks, when there are fewer than 65536 files, all there, each
  -- of at least 168 bytes, the size of the struct, and of fewer than 2 ^ 32: behind the count, the
  -- files are handled as payloads one after another, in their order, until one fails.
  pub payload_cmd_composite-pack :
      (ns cs : List Bytes) (d : Device)
      → AreFound fs ns cs
      → length ns < 65536
      → ((pack ns fs).0 ≡ 0)
        × (payload_cmd_composite handle
              (htons (length ns) ++ (pack ns fs).1)
              (2 + length (pack ns fs).1)
              d
            ≡ in_turn handle cs d)
  unfolding payload_cmd_composite
  payload_cmd_composite-pack ns cs d h few = rw (pack-AreFound fs ns cs h) (
    refl,
    rw (le→not_ltb (2 + length (packed cs)) 2 (omega arith)) (
        ap
          (λ (n : ℕ).
            composite_loop handle n (htons (length ns) ++ packed cs) (2 + length (packed cs)) 2 d)
          {y = length ns} (omega (arith, few))
        ∙ composite_loop-packed ns cs (htons (length ns)) d h),
  )
