-- ===== src/Daemon/Upload.antt =====
-- daemon/command.c, cmd_upload_data: files of the phone are posted to the server. The files and the
-- network are arguments.
use dumbos_dumbos.Base.{
  ℕ, ◌+◌, ◌^◌, ◌<◌, ltb, if◌then◌else◌, ◌≡◌, refl, ap, ◌∙◌, List, [], ◌∷◌, ◌++◌, Option, none, some,
  Bytes, codes, Result, ok, err,
}
use dumbos_dumbos.Base.Int.{ℤ, pos}
use dumbos_dumbos.Base.Errno.{einval, ekeyexpired}
use dumbos_dumbos.Decimal.{print_ℤ}
use dumbos_dumbos.Ed25519.{IsEd25519}
use dumbos_dumbos.Ed25519.Laws.{IsKeyPair}
use dumbos_dumbos.RequestId.{request_id_generate, request_id_sign, request_id_verify}
use dumbos_dumbos.RequestId.Laws.{request_id_verify-request_id_sign}
use dumbos_dumbos.User.{UserData, username_of, priv_key_of, dumbos_alloc_get_user}
use dumbos_dumbos.Daemon.SecretCode.{Net, alloc_construct_request_url}

-- What stat(2) says of the size of a file, what open(2) with read_all of so many bytes gives, and
-- what post_buffer does with a URL and a buffer.
pub record Access : Type 0 where
  pub upload_server : Bytes
  pub stat : Bytes → Result ℕ
  pub read : Bytes → ℕ → Result Bytes
  pub post_buffer : Bytes → Bytes → Result (Unit {0})

-- The code, what the client is told, and the URL and the contents of the posts that succeeded.
pub record Uploaded : Type 0 where
  pub code : ℤ
  pub said : List Bytes
  pub posted : List (Bytes × Bytes)

abbrev pub upload_stops : ℕ → List Bytes → Uploaded
upload_stops e said = record { code = pos e; said = said; posted = [] }

abbrev pub and_posted : Bytes → Bytes → Uploaded → Uploaded
and_posted url buffer rest = record rest { posted = (url, buffer) ∷ rest.posted }

-- The loop takes the arguments from the last to the first.
abbrev pub last_first : List Bytes → List Bytes
last_first [] = []
last_first (a ∷ args) = last_first args ++ a ∷ []

module _ (net : Net) (files : Access) where
  abbrev pub after_post : Bytes → Bytes → Uploaded → Result (Unit {0}) → Uploaded
  after_post url buffer rest (err e) = upload_stops e []
  after_post url buffer rest (ok _) = and_posted url buffer rest

  abbrev pub after_read : Bytes → Uploaded → Result Bytes → Uploaded
  after_read url rest (err e) = upload_stops e []
  after_read url rest (ok buffer) = after_post url buffer rest (files.post_buffer url buffer)

  abbrev pub after_stat : Bytes → Bytes → Uploaded → Result ℕ → Uploaded
  after_stat url file rest (err e) = upload_stops e []
  after_stat url file rest (ok size) = after_read url rest (files.read file size)

  -- A file that fails ends the command; the files before it stay posted.
  unfoldable pub upload_each : Bytes → List Bytes → Uploaded
  upload_each url [] = upload_stops 0 []
  upload_each url (file ∷ rest) =
      let others = upload_each url rest in after_stat url file others (files.stat file)

  abbrev pub upload_signed : List Bytes → ℤ → UserData → Bytes → Result Bytes → Uploaded
  upload_signed args time u id (err e) = upload_stops e []
  upload_signed args time u id (ok sig) =
      upload_each (alloc_construct_request_url files.upload_server (username_of u) id sig time none)
        (last_first args)

  abbrev pub upload_with_id : List Bytes → ℤ → UserData → Option Bytes → Uploaded
  upload_with_id args time u none = upload_stops net.random_errno []
  upload_with_id args time u (some id) =
      upload_signed args time u id
        (request_id_sign net.openssl (username_of u) id time (priv_key_of u))

  abbrev pub upload_with_user : List Bytes → ℤ → Result UserData → Uploaded
  upload_with_user args time (err e) = upload_stops e []
  upload_with_user args time (ok u) =
      upload_with_id args time u (request_id_generate net.char_is_signed net.random)

  abbrev pub upload_with_time : List Bytes → Result ℤ → Uploaded
  upload_with_time args (err e) =
      upload_stops e (codes "failed to get time from network (check your connection?)" ∷ [])
  upload_with_time args (ok time) = upload_with_user args time (dumbos_alloc_get_user net.user_file)

  unfoldable pub cmd_upload_data : List Bytes → Uploaded
  unfolding upload_each
  cmd_upload_data [] = upload_stops einval (codes "not enough arguments" ∷ [])
  cmd_upload_data (a ∷ args) = upload_with_time (a ∷ args) net.network_time

  -- The buffers of files that can be read and posted.
  abbrev pub Postable : Bytes → List Bytes → List Bytes → Type 0
  Postable url [] [] = Unit
  Postable url [] (b ∷ bs) = ⊥
  Postable url (f ∷ fs) [] = ⊥
  Postable url (f ∷ fs) (b ∷ bs) =
      (size : ℕ) × (files.stat f ≡ ok size)
      × (files.read f size ≡ ok b)
      × (files.post_buffer url b ≡ ok tt)
      × Postable url fs bs

  abbrev pub under : Bytes → List Bytes → List (Bytes × Bytes)
  under url [] = []
  under url (b ∷ bs) = (url, b) ∷ under url bs

  upload_each-Postable :
      (url : Bytes) (fs bs : List Bytes)
      → Postable url fs bs
      → upload_each url fs ≡ record { code = pos 0; said = []; posted = under url bs }
  unfolding upload_each
  upload_each-Postable url [] [] h = refl
  upload_each-Postable url [] (b ∷ bs) h = absurd h
  upload_each-Postable url (f ∷ fs) [] h = absurd h
  upload_each-Postable url (f ∷ fs) (b ∷ bs) (size, there, readable, posts, h) =
      rw (there, readable, posts)
        (ap (λ (u : Uploaded). and_posted url b u) (upload_each-Postable url fs bs h))

  -- The URL of a post, as the server reads it.
  abbrev pub post_url : Bytes → Bytes → Bytes → ℕ → Bytes
  post_url user id sig t =
      files.upload_server
      ++ (codes "?code=dummy&user="
          ++ (user
              ++ (codes "&requestid="
                  ++ (id
                      ++ (codes "&requestsig=" ++ (sig ++ (codes "&time=" ++ print_ℤ (pos t))))))))

  url_made :
      (user id sig : Bytes) (t : ℕ)
      → alloc_construct_request_url files.upload_server user id sig (pos t) none
        ≡ post_url user id sig t
  unfolding alloc_construct_request_url
  url_made user id sig t = refl

  -- Files that can all be read and posted are all posted, the last one first, and the command returns
  -- 0. All go to one URL, in whose query stand the user, the request, its signature and the time of the
  -- network; and until 60 seconds after that time, not later, request_id_verify accepts this signature
  -- for these under the public key of the user.
  pub cmd_upload_data-Postable :
      (a id sig public_hex : Bytes) (args bs : List Bytes) (t now : ℕ) (u : UserData)
      → IsEd25519 net.openssl
      → IsKeyPair net.openssl (priv_key_of u) public_hex
      → t < 2 ^ 63
      → net.network_time ≡ ok (pos t)
      → dumbos_alloc_get_user net.user_file ≡ ok u
      → request_id_generate net.char_is_signed net.random ≡ some id
      → request_id_sign net.openssl (username_of u) id (pos t) (priv_key_of u) ≡ ok sig
      → Postable (post_url (username_of u) id sig t) (last_first (a ∷ args)) bs
      → (cmd_upload_data (a ∷ args) ≡ record {
        code = pos 0;
        said = [];
        posted = under (post_url (username_of u) id sig t) bs;
      })
        × (request_id_verify net.openssl
              (username_of u)
              id
              (print_ℤ (pos t))
              sig
              public_hex
              (pos now)
            ≡ (if ltb (t + 60) now then err ekeyexpired else ok tt))
  unfolding cmd_upload_data
  cmd_upload_data-Postable a id sig public_hex args bs t now u law pair fits timed user made signs
        h =
      (
        ap (λ r. upload_with_time (a ∷ args) r) timed
            ∙ ap (λ r. upload_with_user (a ∷ args) (pos t) r) user
            ∙ ap (λ r. upload_with_id (a ∷ args) (pos t) u r) made
            ∙ ap (λ r. upload_signed (a ∷ args) (pos t) u id r) signs
            ∙ ap (λ url. upload_each url (last_first (a ∷ args)))
                (url_made (username_of u) id sig t)
            ∙ upload_each-Postable (post_url (username_of u) id sig t) (last_first (a ∷ args)) bs h,
        request_id_verify-request_id_sign net.openssl (priv_key_of u) public_hex (username_of u) id
            sig t now law pair fits signs,
      )
