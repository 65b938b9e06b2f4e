-- ===== src/Crypto/Password/RoundTrip.antt =====
-- What VerifyPassword makes of a hash of HashPassword.
use ar_app.Base.{
  ℕ, ◌≡◌, refl, sym, ◌∙◌, ap, true, Option, some, List, [], ◌∷◌, String, string_eq, arith,
  if◌then◌else◌,
}
use Prim.Native.String
use text.Mathlib.TextLemmas.{nil-append, cons-append, append_assoc, append-nil}
use ar_app.Base.Texts.{split, join, lacks, split-join, lacks-append}
use ar_app.Crypto.Password.{
  Codecs, print_hash, version_text, params_text, hash_password, verify_password, verified, refused,
  mismatch, version, argon_time, argon_memory, argon_threads, argon_key_len,
}

dollar : (s : String) → String.◌++◌ "$" s ≡ String.◌∷◌ "$" s
dollar s = cons-append "$" "" s ∙ ap (String.◌∷◌ "$") (nil-append s)

link :
    (u s t : String) → s ≡ t → String.◌++◌ u (String.◌++◌ "$" s) ≡ String.◌++◌ u (String.◌∷◌ "$" t)
link u s t h = ap (String.◌++◌ u) (dollar s ∙ ap (String.◌∷◌ "$") h)

kind_first :
    (s : String)
    → String.◌++◌ "$argon2id$" s ≡ String.◌++◌ "$" (String.◌++◌ "argon2id" (String.◌++◌ "$" s))
kind_first s = append_assoc "$argon2id" "$" s ∙ append_assoc "$" "argon2id" (String.◌++◌ "$" s)

module _ (C : Codecs) where
  abbrev parts : C.Bytes → C.Bytes → List String
  parts salt key =
      "" ∷ "argon2id" ∷ version_text C ∷ params_text C ∷ C.encode salt ∷ C.encode key ∷ []

  print_hash-join : (salt key : C.Bytes) → print_hash C salt key ≡ join "$" (parts salt key)
  unfolding join
  print_hash-join salt key =
      kind_first _
      ∙ dollar _
      ∙ ap (String.◌∷◌ "$") (
          link "argon2id" _ _ (
            link (version_text C) _ _
              (link (params_text C) _ _ (link (C.encode salt) _ _ (append-nil (C.encode key))))))
      ∙ sym (nil-append _)

  number_lacks :
      (label rest : String) (n : ℕ)
      → lacks "$" label ≡ true
      → lacks "$" rest ≡ true
      → lacks "$" (String.◌++◌ label (String.◌++◌ (C.decimal n) rest)) ≡ true
  number_lacks label rest n h k =
      lacks-append "$" label (String.◌++◌ (C.decimal n) rest) h
        (lacks-append "$" (C.decimal n) rest (C.decimal-lacks n) k)

  split-print_hash : (salt key : C.Bytes) → split "$" (print_hash C salt key) ≡ parts salt key
  split-print_hash salt key = rw (print_hash-join salt key) (
      split-join "$" "" _ (
        refl,
        (
          refl,
          (
            number_lacks "v=" "" _ refl refl,
            (
              number_lacks "m=" _ argon_memory refl (
                  number_lacks ",t=" _ argon_time refl
                    (number_lacks ",p=" "" argon_threads refl refl)),
              (C.encode-lacks salt, (C.encode-lacks key, tt)),
            ),
          ),
        ),
      ))

  -- The key of a password under the parameters in use.
  abbrev pub password_key : String → C.Bytes → Option C.Bytes
  password_key password salt =
      C.id_key password salt argon_time argon_memory argon_threads argon_key_len

  verify_print :
      (password : String) (salt key key' : C.Bytes)
      → C.size key ≡ argon_key_len
      → password_key password salt ≡ some key'
      → verify_password C password (print_hash C salt key)
        ≡ (if C.equal key' key then verified else refused mismatch)
  unfolding verify_password
  verify_print password salt key key' n e =
      rw
        (
          split-print_hash salt key,
          C.scan_version-print version (omega arith),
          C.scan_params-print argon_memory argon_time argon_threads (omega arith) (omega arith)
              (omega arith),
          C.decode-encode salt,
          C.decode-encode key,
          n,
          e,
        )
        refl

  hashed :
      (password encoded : String) (salt : C.Bytes)
      → hash_password C (some salt) password ≡ some encoded
      → (key : C.Bytes) × (password_key password salt ≡ some key)
        × (C.size key ≡ argon_key_len)
        × (encoded ≡ print_hash C salt key)
  unfolding hash_password
  hashed password encoded salt h =
      let (key, e, n) =
        C.id_key_runs password salt argon_time argon_memory argon_threads argon_key_len
          (omega arith) (omega arith) in
      (key, e, n, ground (arith, h, e))

  -- VerifyPassword accepts the text that HashPassword has made of a password, whatever the salt, and of
  -- other passwords exactly those that Argon2 gives a key that compares equal to the stored one; it
  -- refuses the rest as a mismatch.
  pub verify_password-hash_password :
      (password other encoded : String) (salt : C.Bytes)
      → hash_password C (some salt) password ≡ some encoded
      → (verify_password C password encoded ≡ verified)
        × ((key : C.Bytes) × (key' : C.Bytes) × (password_key password salt ≡ some key)
            × (password_key other salt ≡ some key')
            × (verify_password C other encoded
                ≡ (if C.equal key' key then verified else refused mismatch)))
  verify_password-hash_password password other encoded salt h =
      let (key, e, n, same) = hashed password encoded salt h in
      let (key', e', n') =
        C.id_key_runs other salt argon_time argon_memory argon_threads argon_key_len (omega arith)
          (omega arith) in
      (
        rw (same, verify_print password salt key key n e, C.equal_refl key) refl,
        (key, key', e, e', rw (same) (verify_print other salt key key' n e')),
      )
