-- ===== src/Tool/SizeLaws.antt =====
-- server/src/dumb-main.c and dumb-tool-cmd-set.c: the data_size field of the payloads that the tool
-- makes.
use dumbos_dumbos.Base.{
  ℕ, ◌+◌, ◌≡◌, refl, ap, ◌∙◌, sym, subst, Bool, true, false, [], ◌∷◌, ◌++◌, arith, Bytes, length,
  take, drop, replicate, Option, none, some, ok, err, length-append, length-take, length-drop,
  if◌then◌else◌, ltb,
}
use dumbos_dumbos.Base.Errno.{einval}
use dumbos_dumbos.Files.{Files, lookup, insert, lookup-insert_self}
use dumbos_dumbos.Payload.{Payload, IsPayload, base_size, to_bytes, of_bytes}
use dumbos_dumbos.Payload.Layout.{of_bytes-to_bytes}
use dumbos_dumbos.Payload.Fields.{strncpy}
use dumbos_dumbos.Tool.{Run, loaded, dp_malloc_load, on_payload, put_string}

-- A payload whose data_size is 0.
pub record IsUnsized (p : Payload) : Type 0 where
  pub sizes : IsPayload p
  pub no_size : p.data_size ≡ 0 ∷ 0 ∷ 0 ∷ 0 ∷ []

-- If there is a file, then it is such a payload.
abbrev pub Unsized : Bytes → Files → Type 0
Unsized path fs =
    (b : Bytes) → lookup path fs ≡ some b → (p : Payload) × (b ≡ to_bytes p) × IsUnsized p

pub insert-Unsized :
    (path : Bytes) (p : Payload) (fs : Files)
    → IsUnsized p
    → Unsized path (insert path (to_bytes p) fs)
insert-Unsized path p fs h b e = (p, cc (e, lookup-insert_self path (to_bytes p) fs), h)

pub written :
    (path b : Bytes) (p : Payload) (fs : Files)
    → IsUnsized p
    → b ≡ to_bytes p
    → Unsized path (insert path b fs)
written path b p fs h e =
    subst (λ (x : Bytes). Unsized path (insert path x fs)) (sym e) (insert-Unsized path p fs h)

pub if-Keeps :
    {A : Type 0} (P : A → Type 0) (b : Bool) (x y : A) → P x → P y → P (if b then x else y)
if-Keeps P true x y p q = p
if-Keeps P false x y p q = q

module _ (path : Bytes) (fs : Files) (unsized : Unsized path fs) where
  abbrev pub Keeps : Run → Type 0
  Keeps r = Unsized path r.1

  pub on_payload-Keeps :
      (f : Payload → ℕ → Run)
      → ((p : Payload)
          → IsUnsized p
          → lookup path fs ≡ some (to_bytes p)
          → Keeps (f p (length (to_bytes p))))
      → Keeps (on_payload f fs (dp_malloc_load path fs))
  unfolding dp_malloc_load
  on_payload-Keeps f k = found (lookup path fs) refl
    where
      found : (o : Option Bytes) → lookup path fs ≡ o → Keeps (on_payload f fs (loaded o))
      found none e = unsized
      found (some b) e = sized (ltb (length b) base_size)
        where
          sized : (small : Bool) → Keeps (on_payload f fs (if small then err einval else ok b))
          sized true = unsized
          sized false =
              let (p, eq, h) = unsized b e in
              subst (λ (x : Bytes). Keeps (f (of_bytes x) (length x))) (sym eq)
                (subst (λ (q : Payload). Keeps (f q (length (to_bytes p))))
                  (sym (of_bytes-to_bytes p h.sizes)) (k p h (e ∙ ap some eq)))

pub length-strncpy : (s : Bytes) → length (strncpy s 16) ≡ 16
length-strncpy s =
    omega (arith, length-take {0} 16 (s ++ replicate 16 0), length-append {0} s (replicate 16 0))

pub length-put_string : (s old : Bytes) → length old ≡ 16 → length (put_string 15 s old) ≡ 16
length-put_string s old h = omega (
  arith,
  h,
  length-append {0} (take 15 s) (0 ∷ drop (length (take 15 s) + 1) old),
  length-drop (length (take 15 s) + 1) old,
  length-take 15 s,
)

-- A change of the command leaves a payload without a size.
pub command_changed :
    (p : Payload) (c content : Bytes)
    → IsUnsized p
    → length c ≡ 16
    → IsUnsized (record p { command = c; payload = content })
command_changed p c content h e = record {
  sizes = record {
    signature_length = h.sizes.signature_length;
    expire_length = h.sizes.expire_length;
    command_length = e;
    padding_length = h.sizes.padding_length;
    data_size_length = h.sizes.data_size_length;
  };
  no_size = h.no_size;
}
