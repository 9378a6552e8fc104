-- ===== src/Auth/Password/RoundTrip.antt =====
-- A hashed password is the one that is accepted, for any PBKDF2 whose keys are bytes.
use integrated_work.Prelude.{
  ℕ, ◌+◌, ◌*◌, ◌/◌, ◌%◌, ◌<◌, ◌≡◌, ◌↔◌, refl, sym, ap, ◌∙◌, Bool, true, false, Option, none, some,
  List, [], ◌∷◌, ◌++◌, ◌==◌, ◌>>=◌, All, arith,
}
use integrated_work.Text.{Text, txt, text_eq, is_space, cons_head, split_on, strip, show_nat}
use integrated_work.Text.Laws.{text_eq_iff}
use integrated_work.Auth.Password.{
  utf8, hex_digit, hex, digit_value, unhex, int_of, four_parts, rounds, is_true, hash_password,
  check_parts, verify_password,
}

abbrev pub Bytes : List ℕ → Type 0
Bytes bs = All (λ n. n < 256) bs

digit_value-hex_digit : (n : ℕ) → n < 16 → digit_value (hex_digit n) ≡ some n
unfolding digit_value hex_digit
digit_value-hex_digit n h = ground arith

hex_digit_plain :
    (n : ℕ) → n < 16 → (is_space (hex_digit n) ≡ false) × ((hex_digit n == b'$') ≡ false)
unfolding hex_digit is_space
hex_digit_plain n h = ground arith

byte_parts : (n : ℕ) → n < 256 → (n / 16 < 16) × (n % 16 < 16) × (16 * (n / 16) + n % 16 ≡ n)
byte_parts n h = (omega arith, omega arith, omega arith)

pub unhex-hex : (bs : List ℕ) → Bytes bs → unhex (hex bs) ≡ some bs
unfolding hex unhex
unhex-hex [] h = refl
unhex-hex (n ∷ bs) h =
    let (high, low, whole) = byte_parts n h.0 in
    rw
      (
        (hex_digit_plain (n / 16) high).0,
        digit_value-hex_digit (n / 16) high,
        digit_value-hex_digit (n % 16) low,
        unhex-hex bs h.1,
        whole,
      )
      refl

hex-injective : (bs cs : List ℕ) → Bytes bs → Bytes cs → hex bs ≡ hex cs → bs ≡ cs
hex-injective bs cs h g e = ground (arith, unhex-hex bs h, unhex-hex cs g, ap unhex e)

-- No "$" in it.
abbrev Plain : Text → Type 0
Plain s = All (λ c. (c == b'$') ≡ false) s

hex-Plain : (bs : List ℕ) → Bytes bs → Plain (hex bs)
unfolding hex
hex-Plain [] h = tt
hex-Plain (n ∷ bs) h =
    let (high, low, _) = byte_parts n h.0 in
    ((hex_digit_plain (n / 16) high).1, ((hex_digit_plain (n % 16) low).1, hex-Plain bs h.1))

split_on-Plain : (s : Text) → Plain s → split_on b'$' s ≡ s ∷ []
unfolding split_on cons_head
split_on-Plain [] h = refl
split_on-Plain (c ∷ s) h = rw (h.0, split_on-Plain s h.1) refl

split_on-append : (s t : Text) → Plain s → split_on b'$' (s ++ b'$' ∷ t) ≡ s ∷ split_on b'$' t
unfolding split_on cons_head
split_on-append [] t h = refl
split_on-append (c ∷ s) t h = rw (h.0, split_on-append s t h.1) refl

abbrev stored : (salt dk : List ℕ) → Text
stored salt dk = txt "pbkdf2_sha256" ++ b'$' ∷ show_nat rounds ++ b'$' ∷ hex salt ++ b'$' ∷ hex dk

split_on-stored :
    (salt dk : List ℕ)
    → Bytes salt
    → Bytes dk
    → split_on b'$' (stored salt dk)
      ≡ txt "pbkdf2_sha256" ∷ show_nat rounds ∷ hex salt ∷ hex dk ∷ []
unfolding rounds show_nat split_on cons_head
split_on-stored salt dk h g =
    rw
      (
        split_on-append (hex salt) (hex dk) (hex-Plain salt h),
        split_on-Plain (hex dk) (hex-Plain dk g),
      )
      refl

module _ (pbkdf2_hmac : (password salt : List ℕ) → ℕ → Option (List ℕ)) where
  -- The key of a password.
  abbrev pub derived : (salt : List ℕ) → Text → Option (List ℕ)
  derived salt password = utf8 password >>= λ bytes. pbkdf2_hmac bytes salt rounds

  matches : Option (List ℕ) → Text → Bool
  matches none t = false
  matches (some dk) t = text_eq (hex dk) t

  is_true-matches :
      (o : Option (List ℕ)) (t : Text)
      → is_true (o >>= λ dk. some (text_eq (hex dk) t)) ≡ matches o t
  unfolding is_true matches
  is_true-matches none t = refl
  is_true-matches (some dk) t = refl

  int_of-rounds : int_of (show_nat rounds) ≡ some rounds
  unfolding int_of show_nat rounds strip
  int_of-rounds = refl

  check_key :
      (m : Option (List ℕ)) (salt : List ℕ) (t : Text)
      → Bytes salt
      → is_true (
          m >>= λ bytes. unhex (hex salt) >>= λ raw. int_of (show_nat rounds) >>= λ n.
          pbkdf2_hmac bytes raw n >>= λ dk. some (text_eq (hex dk) t))
        ≡ matches (m >>= λ bytes. pbkdf2_hmac bytes salt rounds) t
  unfolding is_true matches
  check_key none salt t h = refl
  check_key (some bytes) salt t h =
      rw (unhex-hex salt h, int_of-rounds) (is_true-matches (pbkdf2_hmac bytes salt rounds) t)

  verify_password-stored :
      (salt dk : List ℕ) (q : Text)
      → Bytes salt
      → Bytes dk
      → verify_password pbkdf2_hmac q (stored salt dk) ≡ matches (derived salt q) (hex dk)
  unfolding verify_password four_parts check_parts text_eq
  verify_password-stored salt dk q h g =
      rw (split_on-stored salt dk h g) (check_key (utf8 q) salt (hex dk) h)

  no_key : (key : List ℕ) → ◌≡◌ {A = Option (List ℕ)} none (some key) → ⊥
  no_key key e = cc

  bind_bytes :
      ((password s key : List ℕ) (n : ℕ) → pbkdf2_hmac password s n ≡ some key → Bytes key)
      → (m : Option (List ℕ)) (salt key : List ℕ)
      → (m >>= λ bytes. pbkdf2_hmac bytes salt rounds) ≡ some key
      → Bytes key
  bind_bytes bytes none salt key e = absurd (no_key key e)
  bind_bytes bytes (some b) salt key e = bytes b salt key rounds e

  stored_key :
      (m : Option (List ℕ)) (salt : List ℕ) {h : Text}
      → (m >>= λ dk. some (stored salt dk)) ≡ some h
      → (dk : List ℕ) × (m ≡ some dk) × (h ≡ stored salt dk)
  stored_key none salt e = cc
  stored_key (some dk) salt e = (dk, refl, cc)

  hash_password-derived :
      (m : Option (List ℕ)) (salt : List ℕ)
      → (m >>= λ bytes. pbkdf2_hmac bytes salt rounds >>= λ dk. some (stored salt dk))
        ≡ ((m >>= λ bytes. pbkdf2_hmac bytes salt rounds) >>= λ dk. some (stored salt dk))
  hash_password-derived none salt = refl
  hash_password-derived (some bytes) salt = refl

  hash_password-stored :
      (salt : List ℕ) (p h : Text)
      → hash_password pbkdf2_hmac salt p ≡ some h
      → (dk : List ℕ) × (derived salt p ≡ some dk) × (h ≡ stored salt dk)
  unfolding hash_password
  hash_password-stored salt p h e =
      stored_key (derived salt p) salt (sym (hash_password-derived (utf8 p) salt) ∙ e)

  matches_iff :
      (o : Option (List ℕ)) (dk : List ℕ)
      → ((key : List ℕ) → o ≡ some key → Bytes key)
      → Bytes dk
      → (matches o (hex dk) ≡ true) ↔ (o ≡ some dk)
  unfolding matches
  matches_iff none dk bytes h = ground arith
  matches_iff (some key) dk bytes h =
      ground (arith, text_eq_iff (hex key) (hex dk), hex-injective key dk (bytes key refl) h)

  -- With a PBKDF2 whose keys are bytes, and a salt of bytes: what hash_password returned accepts a
  -- password if and only if that password's key, under the same salt and rounds, is the key of the
  -- hashed password. In particular it accepts the hashed password.
  pub verify_password-hash_password :
      (salt : List ℕ) (p q h : Text)
      → ((password s key : List ℕ) (n : ℕ) → pbkdf2_hmac password s n ≡ some key → Bytes key)
      → Bytes salt
      → hash_password pbkdf2_hmac salt p ≡ some h
      → ((verify_password pbkdf2_hmac q h ≡ true) ↔ (derived salt q ≡ derived salt p))
        × (verify_password pbkdf2_hmac p h ≡ true)
  verify_password-hash_password salt p q h bytes g e =
      let (dk, made, whole) = hash_password-stored salt p h e in
      let key_bytes = λ (r : Text). bind_bytes bytes (utf8 r) salt in
      let accepts =
        λ (r : Text). matches_iff (derived salt r) dk (key_bytes r) (key_bytes p dk made) in
      ground (
        arith,
        verify_password-stored salt dk q g (key_bytes p dk made),
        verify_password-stored salt dk p g (key_bytes p dk made),
        accepts p,
        accepts q,
        made,
        whole,
      )
