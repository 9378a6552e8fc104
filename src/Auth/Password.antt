-- ===== src/Auth/Password.antt =====
-- hash_password and verify_password of executor/api/auth.py. `none` is an exception. PBKDF2 is a
-- parameter, which gets the password's and the salt's bytes and the rounds.
pub mod RoundTrip
use integrated_work.Prelude.{
  ℕ, suc, ◌+◌, ◌-◌, ◌*◌, ◌/◌, ◌%◌, Bool, true, false, not, ◌&&◌, ◌||◌, Option, none, some, List, [],
  ◌∷◌, ◌++◌, leb, ltb, ◌==◌, if◌then◌else◌, ◌>>=◌,
}
use integrated_work.Text.{Text, txt, text_eq, is_space, strip, show_nat, split_on}

-- c.encode("utf-8"); a surrogate has no encoding.
encode_char : ℕ → Option (List ℕ)
encode_char c =
    if ltb c 128
    then some (c ∷ [])
    else if ltb c 2048
    then some ((192 + c / 64) ∷ (128 + c % 64) ∷ [])
    else if leb 55296 c && leb c 57343
    then none
    else if ltb c 65536
    then some ((224 + c / 4096) ∷ (128 + c / 64 % 64) ∷ (128 + c % 64) ∷ [])
    else some
        ((240 + c / 262144) ∷ (128 + c / 4096 % 64) ∷ (128 + c / 64 % 64) ∷ (128 + c % 64) ∷ [])

unfoldable pub utf8 : Text → Option (List ℕ)
unfolding encode_char
utf8 [] = some []
utf8 (c ∷ s) = encode_char c >>= λ bs. utf8 s >>= λ rest. some (bs ++ rest)

unfoldable pub hex_digit : ℕ → ℕ
hex_digit n = if ltb n 10 then b'0' + n else b'a' + (n - 10)

-- bs.hex()
unfoldable pub hex : List ℕ → Text
unfolding hex_digit
hex [] = []
hex (n ∷ bs) = hex_digit (n / 16) ∷ hex_digit (n % 16) ∷ hex bs

unfoldable pub digit_value : ℕ → Option ℕ
digit_value c =
    if leb b'0' c && leb c b'9'
    then some (c - b'0')
    else if leb b'a' c && leb c b'f'
    then some (c - b'a' + 10)
    else if leb b'A' c && leb c b'F'
    then some (c - b'A' + 10)
    else none

-- bytes.fromhex(s): two digits for a byte, with white space between bytes.
unfoldable pub unhex : Text → Option (List ℕ)
unfolding digit_value is_space
unhex [] = some []
unhex (c ∷ []) = if is_space c then some [] else none
unhex (c ∷ d ∷ s) =
    let rest = unhex (d ∷ s) in
    let byte =
      digit_value c >>= λ m. digit_value d >>= λ n. unhex s >>= λ bs. some ((16 * m + n) ∷ bs) in
    if is_space c then rest else byte

-- The digits of a decimal number that is at least 0, with single underscores between them.
unfoldable pub decimal : (total : ℕ) (after_digit : Bool) → Text → Option ℕ
decimal total after_digit [] = if after_digit then some total else none
decimal total after_digit (c ∷ s) =
    let more = decimal (10 * total + (c - b'0')) true s in
    let skip = decimal total false s in
    if leb b'0' c && leb c b'9' then more else if c == b'_' && after_digit then skip else none

unsigned : Text → Text
unsigned [] = []
unsigned (c ∷ s) = if c == b'+' then s else c ∷ s

-- int(s), where s is not negative
unfoldable pub int_of : Text → Option ℕ
unfolding unsigned decimal
int_of s = decimal 0 false (unsigned (strip s))

-- algo, rounds, salt_hex, hash_hex = parts
unfoldable pub four_parts : List Text → Option (Text × Text × Text × Text)
four_parts (a ∷ b ∷ c ∷ d ∷ []) = some (a, b, c, d)
four_parts _ = none

unfoldable pub rounds : ℕ
rounds = 240000

unfoldable pub is_true : Option Bool → Bool
is_true none = false
is_true (some b) = b

module _ (pbkdf2_hmac : (password salt : List ℕ) → ℕ → Option (List ℕ)) where
  -- `salt` is what os.urandom(16) returned.
  unfoldable pub hash_password : (salt : List ℕ) → Text → Option Text
  hash_password salt password = utf8 password >>= λ bytes. pbkdf2_hmac bytes salt rounds >>= λ dk.
      some (txt "pbkdf2_sha256" ++ b'$' ∷ show_nat rounds ++ b'$' ∷ hex salt ++ b'$' ∷ hex dk)

  -- The test behind the unpacking; a negative or a missing number of rounds raises like 0 does.
  unfoldable pub check_parts : (password algo rounds_text salt_hex hash_hex : Text) → Option Bool
  check_parts password algo rounds_text salt_hex hash_hex =
      if text_eq algo (txt "pbkdf2_sha256")
      then (utf8 password >>= λ bytes. unhex salt_hex >>= λ salt. int_of rounds_text >>= λ n.
          pbkdf2_hmac bytes salt n >>= λ dk. some (text_eq (hex dk) hash_hex))
      else some false

  unfoldable pub verify_password : (password stored : Text) → Bool
  verify_password password stored = is_true (
      four_parts (split_on b'$' stored) >>= λ (algo, rounds_text, salt_hex, hash_hex).
      check_parts password algo rounds_text salt_hex hash_hex)
