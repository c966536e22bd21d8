-- ===== src/Mesh/Ccm/Laws.antt =====
-- Decryption in internal/mqtt/crypto.go takes exactly what encryption gives.
use Prim.Native.Nat.{bit_or, bit_xor}
use meshtk.Prelude.{
  ℕ, zero, suc, ◌+◌, ◌≤◌, List, [], ◌∷◌, ◌++◌, true, Bool-cases, inl, inr, Option, none, some, ◌≡◌,
  refl, ap, ◌∙◌, sym, arith, leb, leb→le, ◌==◌, ==_iff, length, take, drop, length-append,
  length-take, length-drop, take-append, drop-append, take_all, take-append-drop, append-nil, ok,
  bit_xor-bit_xor, eq_of_bit_xor, bit_xor_self, zero_of_bit_or,
}
use meshtk.Mesh.Ccm.{
  Block, first_byte, xor_bytes, formatted, counter_mode, encrypt_ctr, decrypt_ciphertext, tag,
  generate_auth_tag, encrypt_auth_tag, decrypt_auth_tag, differences, constant_time_compare,
  verify_authentication, ccm_encrypt, ccm_decrypt, aes_ccm_encrypt, aes_ccm_ad,
}

pub length-xor_bytes : (b s : List ℕ) → length (xor_bytes b s) ≡ length b
unfolding xor_bytes
length-xor_bytes [] s = refl
length-xor_bytes (b ∷ bs) s = ap suc (length-xor_bytes bs (drop 1 s))

pub xor_bytes-xor_bytes : (b s : List ℕ) → xor_bytes (xor_bytes b s) s ≡ b
unfolding xor_bytes
xor_bytes-xor_bytes [] s = refl
xor_bytes-xor_bytes (b ∷ bs) s =
    rw (bit_xor-bit_xor b (first_byte s), xor_bytes-xor_bytes bs (drop 1 s)) refl

drop_past : (n : ℕ) (b : List ℕ) → length b ≤ n → drop n b ≡ []
drop_past zero [] h = refl
drop_past (suc n) [] h = refl
drop_past zero (x ∷ xs) h = absurd (omega arith)
drop_past (suc n) (x ∷ xs) h = drop_past n xs (omega arith)

-- A block of the text that was replaced by as many bytes is found again in front of the rest.
chunk :
    (text head rest : List ℕ)
    → length head ≡ length (take 16 text)
    → (drop 16 text ≡ [] → rest ≡ [])
    → (take 16 (head ++ rest) ≡ head) × (drop 16 (head ++ rest) ≡ rest)
chunk text head rest same last = elim (Bool-cases (leb 16 (length text))) [
  | inl full ↦
      let n : 16 ≡ length head =
        omega (arith, length-take 16 text (leb→le 16 (length text) full)) in
      (take-append head rest 16 n, drop-append head rest 16 n)
  | inr partial ↦
      let few : length text ≤ 16 = ground arith in
      let short : length head ≤ 16 = omega (arith, same, ap length (take_all text 16 few)) in
      rw (last (drop_past 16 text few), append-nil)
        (take_all head 16 short, drop_past 16 head short)
]

module _ (encrypt : Block) (nonce : List ℕ) where
  counter_mode-nil : (fuel counter : ℕ) → counter_mode encrypt nonce fuel counter [] ≡ []
  unfolding counter_mode
  counter_mode-nil zero counter = refl
  counter_mode-nil (suc fuel) counter = refl

  counter_mode_step :
      (fuel counter : ℕ) (text : List ℕ)
      → counter_mode encrypt nonce (suc fuel) counter text
        ≡ xor_bytes (take 16 text) (encrypt (formatted 1 nonce counter))
          ++ counter_mode encrypt nonce fuel (counter + 1) (drop 16 text)
  unfolding counter_mode xor_bytes
  counter_mode_step fuel counter [] = sym (counter_mode-nil fuel (counter + 1))
  counter_mode_step fuel counter (b ∷ bs) = refl

  -- Counter mode keeps the length and undoes itself.
  counter_mode_lem :
      (fuel counter : ℕ) (text : List ℕ)
      → length text ≤ fuel
      → let out = counter_mode encrypt nonce fuel counter text in
        (length out ≡ length text) × (counter_mode encrypt nonce fuel counter out ≡ text)
  counter_mode_lem zero counter [] h =
      rw (counter_mode-nil 0 counter) (refl, counter_mode-nil 0 counter)
  counter_mode_lem zero counter (b ∷ bs) h = absurd (omega arith)
  counter_mode_lem (suc fuel) counter text h =
      let stream = encrypt (formatted 1 nonce counter) in
      let head = xor_bytes (take 16 text) stream in
      let rest = counter_mode encrypt nonce fuel (counter + 1) (drop 16 text) in
      let (len, back) =
        counter_mode_lem fuel (counter + 1) (drop 16 text) (omega (arith, length-drop 16 text)) in
      let (first, second) =
        chunk text head rest (length-xor_bytes (take 16 text) stream)
          (λ e. rw e (counter_mode-nil fuel (counter + 1))) in
      rw (counter_mode_step fuel counter text) (
        omega (
          arith,
          length-append head rest,
          length-xor_bytes (take 16 text) stream,
          length-append (take 16 text) (drop 16 text),
          ap length (take-append-drop 16 text),
        ),
        counter_mode_step fuel counter (head ++ rest)
            ∙ rw (first, second, xor_bytes-xor_bytes (take 16 text) stream, back)
                (take-append-drop 16 text),
      )

  decrypt_ciphertext-encrypt_ctr :
      (text : List ℕ)
      → (length (encrypt_ctr encrypt nonce text) ≡ length text)
        × (decrypt_ciphertext encrypt nonce (encrypt_ctr encrypt nonce text) ≡ text)
  unfolding encrypt_ctr decrypt_ciphertext
  decrypt_ciphertext-encrypt_ctr text =
      let (len, back) = counter_mode_lem (length text) 1 text (omega arith) in (len, rw len back)

  encrypt_ctr-decrypt_ciphertext :
      (text : List ℕ)
      → (length (decrypt_ciphertext encrypt nonce text) ≡ length text)
        × (encrypt_ctr encrypt nonce (decrypt_ciphertext encrypt nonce text) ≡ text)
  unfolding encrypt_ctr decrypt_ciphertext
  encrypt_ctr-decrypt_ciphertext text =
      let (len, back) = counter_mode_lem (length text) 1 text (omega arith) in (len, rw len back)

differences-zero :
    (result : ℕ) (a b : List ℕ)
    → differences result a b ≡ 0
    → (result ≡ 0) × (length a ≡ length b → a ≡ b)
unfolding differences
differences-zero result [] [] h = (h, λ _. refl)
differences-zero result [] (y ∷ b) h = (h, λ e. absurd (omega arith))
differences-zero result (x ∷ a) [] h = (h, λ e. absurd (omega arith))
differences-zero result (x ∷ a) (y ∷ b) h =
    let (none_here, rest) = differences-zero (bit_or result (bit_xor x y)) a b h in
    let (before, here) = zero_of_bit_or result (bit_xor x y) none_here in
    (before, λ e. rw (eq_of_bit_xor x y here, rest (omega arith)) refl)

differences_self : (a : List ℕ) → differences 0 a a ≡ 0
unfolding differences
differences_self [] = refl
differences_self (x ∷ a) = rw (bit_xor_self x) (differences_self a)

-- The comparison in constant time is equality.
constant_time_compare_iff :
    (a b : List ℕ)
    → (a ≡ b → constant_time_compare a b ≡ true) × (constant_time_compare a b ≡ true → a ≡ b)
unfolding constant_time_compare
constant_time_compare_iff a b = (
  λ e. rw e (rw (differences_self b) (ground arith)),
  λ h. elim (Bool-cases (length a == length b)) [
    | inr other ↦ absurd (ground arith)
    | inl same ↦ (differences-zero 0 a b (ground arith)).1 ((==_iff (length a) (length b)).0 same)
  ],
)

length-take_le : (n : ℕ) (b : List ℕ) → length (take n b) ≤ n
length-take_le zero b = omega arith
length-take_le (suc n) [] = omega arith
length-take_le (suc n) (x ∷ xs) = omega (arith, length-take_le n xs)

module _ (encrypt : Block) (nonce : List ℕ) where
  tag_whole :
      (text : List ℕ)
      → take 8 (generate_auth_tag encrypt nonce text) ≡ generate_auth_tag encrypt nonce text
  unfolding generate_auth_tag tag
  tag_whole text = take_all _ 8 (length-take_le 8 _)

  verify_lem :
      (text expected : List ℕ) (n : ℕ)
      → length text ≡ n
      → verify_authentication encrypt nonce text expected n
        ≡ constant_time_compare (generate_auth_tag encrypt nonce text) expected
  unfolding verify_authentication generate_auth_tag
  verify_lem text expected n e = rw (← e) (rw (take_all text (length text) (omega arith)) refl)

  ccm_encrypt-accepted :
      (ciphertext auth_tag plaintext : List ℕ)
      → length auth_tag ≡ 8
      → ccm_encrypt nonce plaintext (some encrypt) ≡ ok (ciphertext, auth_tag)
      → ccm_decrypt nonce ciphertext auth_tag (some encrypt) ≡ ok plaintext
  unfolding ccm_encrypt ccm_decrypt encrypt_auth_tag decrypt_auth_tag
  ccm_encrypt-accepted ciphertext auth_tag plaintext eight h =
      let (len, back) = decrypt_ciphertext-encrypt_ctr encrypt nonce plaintext in
      let c : encrypt_ctr encrypt nonce plaintext ≡ ciphertext = cc in
      let t = generate_auth_tag encrypt nonce plaintext in
      let stream = encrypt (formatted 1 nonce 0) in
      let g : xor_bytes (take 8 t) stream ≡ auth_tag = cc in
      let plain : decrypt_ciphertext encrypt nonce ciphertext ≡ plaintext = rw (← c) back in
      let expected : xor_bytes (take 8 auth_tag) stream ≡ t =
        rw (take_all auth_tag 8 (omega arith), ← g)
          (rw (xor_bytes-xor_bytes (take 8 t) stream) (tag_whole plaintext)) in
      let n : length plaintext ≡ length ciphertext = sym len ∙ ap length c in
      rw
        (
          plain,
          expected,
          verify_lem plaintext t (length ciphertext) n,
          (constant_time_compare_iff t t).0 refl,
        )
        refl

  ccm_decrypt-encrypted :
      (ciphertext auth_tag plaintext : List ℕ)
      → length auth_tag ≡ 8
      → ccm_decrypt nonce ciphertext auth_tag (some encrypt) ≡ ok plaintext
      → ccm_encrypt nonce plaintext (some encrypt) ≡ ok (ciphertext, auth_tag)
  unfolding ccm_encrypt ccm_decrypt encrypt_auth_tag decrypt_auth_tag
  ccm_decrypt-encrypted ciphertext auth_tag plaintext eight h =
      let (len, back) = encrypt_ctr-decrypt_ciphertext encrypt nonce ciphertext in
      let out = decrypt_ciphertext encrypt nonce ciphertext in
      let stream = encrypt (formatted 1 nonce 0) in
      let expected = xor_bytes (take 8 auth_tag) stream in
      let t = generate_auth_tag encrypt nonce out in
      elim (Bool-cases (verify_authentication encrypt nonce out expected (length ciphertext))) [
        | inr bad ↦ ground arith
        | inl good ↦
            let p : out ≡ plaintext = ground arith in
            let e : t ≡ expected =
              (constant_time_compare_iff t expected).1
                (sym (verify_lem out expected (length ciphertext) len) ∙ good) in
            rw (← p) (
              rw
                (
                  back,
                  tag_whole out,
                  e,
                  xor_bytes-xor_bytes (take 8 auth_tag) stream,
                  take_all auth_tag 8 (omega arith),
                )
                refl)
      ]

-- With a tag of 8 bytes, decryption accepts a ciphertext as a plaintext exactly when encryption of
-- that plaintext under the same key and nonce gives that ciphertext and that tag.
pub aes_ccm_ad-accepts :
    (new_cipher : List ℕ → Option Block) (key nonce ciphertext auth_tag plaintext : List ℕ)
    → length auth_tag ≡ 8
    → (aes_ccm_ad new_cipher key nonce ciphertext auth_tag ≡ ok plaintext
        → aes_ccm_encrypt new_cipher key nonce plaintext ≡ ok (ciphertext, auth_tag))
      × (aes_ccm_encrypt new_cipher key nonce plaintext ≡ ok (ciphertext, auth_tag)
          → aes_ccm_ad new_cipher key nonce ciphertext auth_tag ≡ ok plaintext)
unfolding aes_ccm_ad aes_ccm_encrypt
aes_ccm_ad-accepts new_cipher key nonce ciphertext auth_tag plaintext eight =
    by_cipher (new_cipher key)
  where
    by_cipher :
        (o : Option Block)
        → (ccm_decrypt nonce ciphertext auth_tag o ≡ ok plaintext
            → ccm_encrypt nonce plaintext o ≡ ok (ciphertext, auth_tag))
          × (ccm_encrypt nonce plaintext o ≡ ok (ciphertext, auth_tag)
              → ccm_decrypt nonce ciphertext auth_tag o ≡ ok plaintext)
    by_cipher none = ((λ h. cc), λ h. cc)
    by_cipher (some encrypt) = (
      ccm_decrypt-encrypted encrypt nonce ciphertext auth_tag plaintext eight,
      ccm_encrypt-accepted encrypt nonce ciphertext auth_tag plaintext eight,
    )
