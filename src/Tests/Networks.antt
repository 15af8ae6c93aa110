-- ===== src/Tests/Networks.antt =====
-- Witnesses for what the daemon does with the network, and for the installation of an app.
use dumbos_dumbos.Base.{
  ◌≡◌, ◌⊎◌, ◌++◌, refl, [], ◌∷◌, Bytes, codes, c_str, some, ok, replicate, true, length, arith,
}
use dumbos_dumbos.Base.Int.{pos}
use dumbos_dumbos.Chars.{check_allowed_chars, strchr}
use dumbos_dumbos.Decimal.{print_ℕ, print_ℤ}
use dumbos_dumbos.Ed25519.{ed25519_sign_hex, hex_to_bytes, hex_loop, hex_char_value, bytes_to_hex}
use dumbos_dumbos.Ed25519.Laws.{IsKeyPair}
use dumbos_dumbos.RequestId.{pick_char, request_id_sign, request_id_verify, request_id_generate}
use dumbos_dumbos.User.{user_bytes, username_of, priv_key_of}
use dumbos_dumbos.Payload.{to_bytes}
use dumbos_dumbos.Daemon.PayloadLaws.{Ends}
use dumbos_dumbos.Daemon.Authority.{Grown}
use dumbos_dumbos.Daemon.Install.{
  Place, Only, Ordered, payload_cmd_install_this, payload_cmd_install_this-Ordered,
}
use dumbos_dumbos.Daemon.SecretCode.{Net, secret_code, secret_code-Ends, secret_code-Grown}
use dumbos_dumbos.Daemon.Upload.{Access, post_url, cmd_upload_data, cmd_upload_data-Postable}
use dumbos_dumbos.Daemon.Curl.{
  Curl, curle_ok, starts_with_http_scheme, make_effective_url, is_curle_ok, set_options,
  starts_with, strstr, perform, write_callback, performed, fetch, download_url,
}
use dumbos_dumbos.Daemon.Curl.Whole.{joined, IsWeb, download_url_whole}
use dumbos_dumbos.Daemon.Curl.Complete.{download_url_complete}
use dumbos_dumbos.Tests.Toy.{toy, toy_hex, toy-IsEd25519}
use dumbos_dumbos.Tests.Payloads.{signed_sample, hex_of}
use dumbos_dumbos.Tests.Phones.{obedient, idle, willing}
use dumbos_dumbos.Tests.Requests.{bytes_200}
use dumbos_dumbos.Tests.Users.{alice, alice_read}

abbrev place : Place
place = record { tmpdir = codes "/tmp/"; opened = ok tt; written = ok tt; stale = [] }

payload_cmd_install_this-Ordered_example :
    Only willing place (codes "apk") [] (payload_cmd_install_this willing place (codes "apk") [])
    ⊎ Ordered willing place
        (codes "apk")
        []
        (payload_cmd_install_this willing place (codes "apk") [])
payload_cmd_install_this-Ordered_example =
    payload_cmd_install_this-Ordered willing place (codes "apk") []

-- A network on which every URL is the signed sample.
abbrev pub net : Net
net = record {
  openssl = toy;
  pubkey = toy_hex;
  phone = obedient;
  now = pos 100;
  network_time = ok (pos 100);
  user_file = some (user_bytes alice);
  random = bytes_200;
  random_errno = 4;
  char_is_signed = true;
  tmpdir = codes "/tmp/";
  code_server = codes "https://localhost/dumb";
  download_url = λ url. ok (to_bytes signed_sample);
}

secret_code-Ends_example : Ends (secret_code net (codes "abc" ∷ []) idle)
secret_code-Ends_example = secret_code-Ends net (codes "abc" ∷ []) idle

secret_code-Grown_example :
    Grown toy toy_hex obedient (pos 100) (pos 100) idle (secret_code net (codes "abc" ∷ []) idle)
secret_code-Grown_example = secret_code-Grown net (pos 100) (codes "abc" ∷ []) idle refl

-- Each file holds its name.
abbrev pub access : Access
access = record {
  upload_server = codes "https://localhost/upload";
  stat = λ file. ok (length file);
  read = λ file size. ok file;
  post_buffer = λ url buffer. ok tt;
}

abbrev request : Bytes
request = replicate 64 (pick_char true 200)

request_made : request_id_generate true bytes_200 ≡ some request
unfolding request_id_generate
request_made = refl

request_signed :
    request_id_sign toy (username_of alice) request (pos 100) (priv_key_of alice) ≡ ok (hex_of 82)
unfolding request_id_sign check_allowed_chars strchr print_ℤ print_ℕ ed25519_sign_hex hex_to_bytes
    hex_loop hex_char_value bytes_to_hex username_of priv_key_of c_str
request_signed = refl

alice-IsKeyPair : IsKeyPair toy (priv_key_of alice) toy_hex
unfolding priv_key_of c_str hex_to_bytes hex_loop hex_char_value
alice-IsKeyPair = record { key = replicate 32 0; private_decodes = refl; public_decodes = refl }

abbrev url : Bytes
url = post_url net access (username_of alice) request (hex_of 82) 100

cmd_upload_data-Postable_example :
    (cmd_upload_data net access (codes "a" ∷ codes "bc" ∷ [])
      ≡ record { code = pos 0; said = []; posted = (url, codes "bc") ∷ (url, codes "a") ∷ [] })
    × (request_id_verify toy
          (username_of alice)
          request
          (print_ℤ (pos 100))
          (hex_of 82)
          toy_hex
          (pos 120)
        ≡ ok tt)
cmd_upload_data-Postable_example =
    cmd_upload_data-Postable net access (codes "a") request (hex_of 82) toy_hex (codes "bc" ∷ [])
      (codes "bc" ∷ codes "a" ∷ []) 100 120 alice toy-IsEd25519 alice-IsKeyPair (omega arith) refl
      alice_read request_made request_signed (2, refl, refl, refl, (1, refl, refl, refl, tt))

-- A body that comes in two pieces.
abbrev curl : Curl
curl = record {
  url_allocated = true;
  global_init = true;
  easy_init = true;
  options = curle_ok ∷ curle_ok ∷ [];
  transfer =
      λ url. record { pieces = (true, codes "ab") ∷ (true, codes "c") ∷ []; code = curle_ok };
  one_allocated = true;
}

localhost_made :
    make_effective_url true (codes "localhost/dumb") ≡ ok (codes "http://localhost/dumb")
unfolding make_effective_url starts_with_http_scheme starts_with strstr
localhost_made = refl

options_set : is_curle_ok (set_options (curle_ok ∷ curle_ok ∷ [])) ≡ true
unfolding set_options is_curle_ok
options_set = refl

code_fine : is_curle_ok curle_ok ≡ true
unfolding is_curle_ok
code_fine = refl

download_url_complete_example : download_url curl (codes "localhost/dumb") ≡ ok (codes "abc")
download_url_complete_example =
    download_url_complete curl (codes "localhost/dumb") (codes "http://localhost/dumb")
      localhost_made refl refl options_set refl (refl, (refl, tt)) (omega arith) code_fine

abc_downloaded : download_url curl (codes "localhost/dumb") ≡ ok (codes "abc")
unfolding download_url fetch performed perform write_callback set_options is_curle_ok
    make_effective_url starts_with_http_scheme starts_with strstr
abc_downloaded = refl

download_url_whole_example :
    (effective : Bytes) × ((effective ≡ codes "localhost/dumb")
      ⊎ (effective ≡ codes "http://" ++ codes "localhost/dumb"))
    × IsWeb effective
    × (is_curle_ok (curl.transfer effective).code ≡ true)
    × (codes "abc" ≡ joined (curl.transfer effective).pieces)
download_url_whole_example =
    download_url_whole curl (codes "localhost/dumb") (codes "abc") abc_downloaded
