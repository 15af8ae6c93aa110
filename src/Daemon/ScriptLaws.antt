-- ===== src/Daemon/ScriptLaws.antt =====
-- daemon/payload_cmd.c: the arguments that script_helper passes on.
use dumbos_dumbos.Base.{
  ℕ, zero, suc, ◌-◌, ◌<◌, ◌≡◌, refl, ap, ◌∙◌, sym, false, List, [], ◌∷◌, ◌++◌, append_assoc, arith,
  Bytes, Result, ok, err, ◌==◌, length, length-append, take-append, All, IsText, lt→not_leb,
  not_zero_test,
}
use dumbos_dumbos.Daemon.Scripts.{Host, strings, script_end, script_helper}

-- NUL terminated strings, one behind the other.
abbrev pub list_data : List Bytes → Bytes
list_data [] = []
list_data (s ∷ ss) = s ++ zero ∷ list_data ss

-- The strings with a NUL between them.
abbrev pub joined_data : Bytes → List Bytes → Bytes
joined_data s [] = s
joined_data s (t ∷ ts) = s ++ zero ∷ joined_data t ts

strings-text :
    (c : ℕ) (s rest : Bytes)
    → IsText (c ∷ s)
    → strings ((c ∷ s) ++ zero ∷ rest) ≡ (c ∷ s) ∷ strings rest
unfolding strings
strings-text zero s rest h = absurd (omega arith)
strings-text (suc c) [] rest h = refl
strings-text (suc c) (zero ∷ s) rest h = absurd (omega arith)
strings-text (suc c) (suc d ∷ s) rest (hc, hs) = rw (strings-text (suc d) s rest hs) refl

strings-last : (c : ℕ) (s : Bytes) → IsText (c ∷ s) → strings (c ∷ s) ≡ (c ∷ s) ∷ []
unfolding strings
strings-last zero s h = absurd (omega arith)
strings-last (suc c) [] h = refl
strings-last (suc c) (zero ∷ s) h = absurd (omega arith)
strings-last (suc c) (suc d ∷ s) (hc, hs) = rw (strings-last (suc d) s hs) refl

abbrev pub NonEmpty : Bytes → Type 0
NonEmpty [] = ⊥
NonEmpty (b ∷ bs) = Unit

strings-joined_data :
    (s : Bytes) (ss : List Bytes)
    → All IsText (s ∷ ss)
    → All NonEmpty (s ∷ ss)
    → strings (joined_data s ss) ≡ s ∷ ss
strings-joined_data [] ss h (ne, _) = absurd ne
strings-joined_data (c ∷ s) [] (h, _) ne = strings-last c s h
strings-joined_data (c ∷ s) (t ∷ ts) (h, hs) (_, ne) =
    strings-text c s (joined_data t ts) h
    ∙ ap (λ (l : List Bytes). (c ∷ s) ∷ l) (strings-joined_data t ts hs ne)

list_data-joined_data :
    (s : Bytes) (ss : List Bytes) → list_data (s ∷ ss) ≡ joined_data s ss ++ zero ∷ []
list_data-joined_data s [] = refl
list_data-joined_data s (t ∷ ts) =
    ap (λ (l : Bytes). s ++ zero ∷ l) (list_data-joined_data t ts)
    ∙ sym (append_assoc s (zero ∷ joined_data t ts) (zero ∷ []))

joined_data-head :
    (c : ℕ) (s : Bytes) (ss : List Bytes) → (rest : Bytes) × (joined_data (c ∷ s) ss ≡ c ∷ rest)
joined_data-head c s [] = (s, refl)
joined_data-head c s (t ∷ ts) = (s ++ zero ∷ joined_data t ts, refl)

script_ends : (argv : List Bytes) (r : Result ℕ) → (script_end argv r).programs ≡ argv ∷ []
script_ends argv (err e) = refl
script_ends argv (ok zero) = refl
script_ends argv (ok (suc n)) = refl

module _ (host : Host) (argv0 argv1 : Bytes) where
  script_helper-joined :
      (c : ℕ) (rest : Bytes)
      → 0 < c
      → (script_helper host argv0 argv1
          ((c ∷ rest) ++ zero ∷ [])
          (length ((c ∷ rest) ++ zero ∷ []))).programs
        ≡ (argv0 ∷ argv1 ∷ strings (c ∷ rest)) ∷ []
  unfolding script_helper
  script_helper-joined zero rest h = absurd (omega arith)
  script_helper-joined (suc c) rest h =
      let size = length ((suc c ∷ rest) ++ zero ∷ []) in
      let longer : 1 < size = omega (arith, length-append {0} rest (zero ∷ [])) in
      rw
        (
          nonzero size longer,
          lt→not_leb size 1 longer,
          not_zero_test c,
          take-append {0} (size - 1) (suc c ∷ rest) (zero ∷ [])
              (omega (arith, length-append {0} rest (zero ∷ []))),
        )
        (script_ends (argv0 ∷ argv1 ∷ strings (suc c ∷ rest))
          (host.execv (argv0 ∷ argv1 ∷ strings (suc c ∷ rest))))
    where
      nonzero : (n : ℕ) → 1 < n → (n == 0) ≡ false
      nonzero n h = ground arith

  -- The data of a firewall or sing-box payload, a list of strings that are not empty, each ended by a
  -- NUL, is passed to the script string by string: the one program that runs gets the two fixed
  -- arguments and then exactly these strings.
  pub script_helper_strings :
      (s : Bytes) (ss : List Bytes)
      → All IsText (s ∷ ss)
      → All NonEmpty (s ∷ ss)
      → (script_helper host argv0 argv1 (list_data (s ∷ ss)) (length (list_data (s ∷ ss)))).programs
        ≡ (argv0 ∷ argv1 ∷ s ∷ ss) ∷ []
  script_helper_strings [] ss h (ne, _) = absurd ne
  script_helper_strings (c ∷ s) ss h ne =
      let (rest, e) = joined_data-head c s ss in
      let whole : list_data ((c ∷ s) ∷ ss) ≡ (c ∷ rest) ++ zero ∷ [] =
        list_data-joined_data (c ∷ s) ss ∙ ap (λ (l : Bytes). l ++ zero ∷ []) e in
      ap (λ (l : Bytes). (script_helper host argv0 argv1 l (length l)).programs) whole
      ∙ script_helper-joined c rest h.0.0.0
      ∙ ap (λ (l : List Bytes). (argv0 ∷ argv1 ∷ l) ∷ [])
          (ap (λ (l : Bytes). strings l) (sym e) ∙ strings-joined_data (c ∷ s) ss h ne)
