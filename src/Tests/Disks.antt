-- ===== src/Tests/Disks.antt =====
-- A disk in memory, which meets what the copy of files asks of a disk, and runs of the copy on it.
use dumbos_dumbos.Base.{
  ◌≡◌, ◌≢◌, refl, sym, ap, [], ◌++◌, Option, none, some, Bytes, Result, ok, err, err-ne-ok,
  ok-injective, if◌then◌else◌, streq, streq_iff, streq_refl, inl, inr, Bool-cases,
}
use dumbos_dumbos.Base.Errno.{enoent, eexist, eloop}
use dumbos_dumbos.Copy.{Call, Entry, file, link, folder, device, Disk, IsPosix}
use dumbos_dumbos.Copy.Willing.{IsWilling}

abbrev pub Memory : Type 0
Memory = Bytes → Option Entry

abbrev pub update : Bytes → Option Entry → Memory → Memory
update p e s q = if streq p q then e else s q

abbrev pub looked_up : Option Entry → Result Entry
looked_up none = err enoent
looked_up (some e) = ok e

abbrev pub made_in : Option Entry → Bytes → Entry → Memory → Call × Memory
made_in none p e s = (ok tt, update p (some e) s)
made_in (some _) p e s = (err eexist, s)

-- 21 is EISDIR.
abbrev pub unlinked_in : Option Entry → Bytes → Memory → Call × Memory
unlinked_in none p s = (err enoent, s)
unlinked_in (some folder) p s = (err 21, s)
unlinked_in (some (file c)) p s = (ok tt, update p none s)
unlinked_in (some (link t)) p s = (ok tt, update p none s)
unlinked_in (some device) p s = (ok tt, update p none s)

abbrev pub opened_in : Option Entry → Bytes → Memory → Call × Memory
opened_in (some (link t)) p s = (err eloop, s)
opened_in (some folder) p s = (err 21, s)
opened_in (some device) p s = (err 6, s)
opened_in (some (file c)) p s = (ok tt, update p (some (file [])) s)
opened_in none p s = (ok tt, update p (some (file [])) s)

abbrev pub appended_in : Option Entry → Bytes → Bytes → Memory → Memory
appended_in (some (file c)) p bs s = update p (some (file (c ++ bs))) s
appended_in (some (link t)) p bs s = s
appended_in (some folder) p bs s = s
appended_in (some device) p bs s = s
appended_in none p bs s = s

abbrev pub memory : Disk
memory = record {
  State = Memory;
  at = λ s p. s p;
  lstat = λ p s. looked_up (s p);
  mkdir = λ p mode s. made_in (s p) p folder s;
  unlink = λ p s. unlinked_in (s p) p s;
  make_link = λ t p s. made_in (s p) p (link t) s;
  open_file = λ p mode s. opened_in (s p) p s;
  writes = λ p s. [];
  append = λ p bs s. appended_in (s p) p bs s;
  close = λ p s. (ok tt, s);
  chmod = λ p mode s. s;
}

update_other : (p q : Bytes) (e : Option Entry) (s : Memory) → q ≢ p → update p e s q ≡ s q
update_other p q e s ne = elim (Bool-cases (streq p q)) [
  | inl t ↦ absurd (ne (sym ((streq_iff p q).0 t)))
  | inr t ↦ rw t refl
]

update_self : (p : Bytes) (e : Option Entry) (s : Memory) → update p e s p ≡ e
update_self p e s = rw (streq_refl p) refl

made_in_other :
    (o : Option Entry) (p q : Bytes) (e : Entry) (s : Memory) → q ≢ p → (made_in o p e s).1 q ≡ s q
made_in_other none p q e s ne = update_other p q (some e) s ne
made_in_other (some _) p q e s ne = refl

made_in_self :
    (o : Option Entry) (p : Bytes) (e : Entry) (s : Memory)
    → (made_in o p e s).0 ≡ ok tt
    → (made_in o p e s).1 p ≡ some e
made_in_self none p e s h = update_self p (some e) s
made_in_self (some _) p e s h = absurd (err-ne-ok h)

unlinked_in_other :
    (o : Option Entry) (p q : Bytes) (s : Memory) → q ≢ p → (unlinked_in o p s).1 q ≡ s q
unlinked_in_other none p q s ne = refl
unlinked_in_other (some folder) p q s ne = refl
unlinked_in_other (some (file c)) p q s ne = update_other p q none s ne
unlinked_in_other (some (link t)) p q s ne = update_other p q none s ne
unlinked_in_other (some device) p q s ne = update_other p q none s ne

unlinked_in_self :
    (o : Option Entry) (p : Bytes) (s : Memory)
    → (unlinked_in o p s).0 ≡ ok tt
    → (unlinked_in o p s).1 p ≡ none
unlinked_in_self none p s h = absurd (err-ne-ok h)
unlinked_in_self (some folder) p s h = absurd (err-ne-ok h)
unlinked_in_self (some (file c)) p s h = update_self p none s
unlinked_in_self (some (link t)) p s h = update_self p none s
unlinked_in_self (some device) p s h = update_self p none s

opened_in_other :
    (o : Option Entry) (p q : Bytes) (s : Memory) → q ≢ p → (opened_in o p s).1 q ≡ s q
opened_in_other (some (link t)) p q s ne = refl
opened_in_other (some folder) p q s ne = refl
opened_in_other (some device) p q s ne = refl
opened_in_other (some (file c)) p q s ne = update_other p q (some (file [])) s ne
opened_in_other none p q s ne = update_other p q (some (file [])) s ne

opened_in_self :
    (o : Option Entry) (p : Bytes) (s : Memory)
    → (opened_in o p s).0 ≡ ok tt
    → (opened_in o p s).1 p ≡ some (file [])
opened_in_self (some (link t)) p s h = absurd (err-ne-ok h)
opened_in_self (some folder) p s h = absurd (err-ne-ok h)
opened_in_self (some device) p s h = absurd (err-ne-ok h)
opened_in_self (some (file c)) p s h = update_self p (some (file [])) s
opened_in_self none p s h = update_self p (some (file [])) s

appended_in_other :
    (o : Option Entry) (p q bs : Bytes) (s : Memory) → q ≢ p → appended_in o p bs s q ≡ s q
appended_in_other (some (file c)) p q bs s ne = update_other p q (some (file (c ++ bs))) s ne
appended_in_other (some (link t)) p q bs s ne = refl
appended_in_other (some folder) p q bs s ne = refl
appended_in_other (some device) p q bs s ne = refl
appended_in_other none p q bs s ne = refl

appended_in_self :
    (o : Option Entry) (p c bs : Bytes) (s : Memory)
    → o ≡ some (file c)
    → appended_in o p bs s p ≡ some (file (c ++ bs))
appended_in_self o p c bs s h = rw h (update_self p (some (file (c ++ bs))) s)

unlink_missing :
    (o : Option Entry) (p : Bytes) (s : Memory)
    → o ≡ none
    → s p ≡ none
    → ((unlinked_in o p s).0 ≡ err enoent) × ((unlinked_in o p s).1 p ≡ none)
unlink_missing o p s h at = rw h (refl, at)

looked_up_same : (o : Option Entry) (e : Entry) → looked_up o ≡ ok e → o ≡ some e
looked_up_same none e h = absurd (err-ne-ok h)
looked_up_same (some e') e h = ap (λ (x : Entry). some x) (ok-injective h)

pub memory-IsPosix : IsPosix memory
memory-IsPosix = record {
  mkdir_keeps = λ p q mode s ne. made_in_other (s p) p q folder s ne;
  unlink_keeps = λ p q s ne. unlinked_in_other (s p) p q s ne;
  make_link_keeps = λ t p q s ne. made_in_other (s p) p q (link t) s ne;
  open_file_keeps = λ p q mode s ne. opened_in_other (s p) p q s ne;
  append_keeps = λ p q bs s ne. appended_in_other (s p) p q bs s ne;
  close_keeps = λ p q s. refl;
  chmod_keeps = λ p q mode s. refl;
  at-lstat = λ p s e h. looked_up_same (s p) e h;
  at-mkdir = λ p mode s h. made_in_self (s p) p folder s h;
  at-make_link = λ t p s h. made_in_self (s p) p (link t) s h;
  at-unlink = λ p s h. unlinked_in_self (s p) p s h;
  at-open_file = λ p mode s _ h. opened_in_self (s p) p s h;
  at-append = λ p c bs s h. appended_in_self (s p) p c bs s h;
}

pub memory-IsWilling : IsWilling memory
memory-IsWilling = record {
  mkdir_new = λ p mode s h. rw h refl;
  open_file_new = λ p mode s h. rw h refl;
  unlink_new = λ p s h. unlink_missing (s p) p s h h;
  make_link_new = λ t p s h. rw h refl;
  writes_fine = λ p s. tt;
  close_fine = λ p s. refl;
}
