-- ===== src/Auth/Accounts/Login.antt =====
-- A new account can log in with its password.
use mathlib.Core.Path.{subst}
use integrated_work.Prelude.{
  ℕ, ◌≡◌, refl, ap, sym, ◌∙◌, Bool, true, false, Option, some, List, [], keep, any, nonempty,
  nonempty-keep, arith,
}
use integrated_work.Text.{Text, txt}
use integrated_work.Text.Laws.{text_eq_refl}
use integrated_work.Auth.Password.{verify_password}
use integrated_work.Auth.Password.RoundTrip.{Bytes, verify_password-hash_password}
use integrated_work.Auth.Requests.{
  RegisterRequest, TokenResponse, validated, normal_email, email_ok,
}
use integrated_work.Auth.Tokens.{ok, IfOk, Settings, Services}
use integrated_work.Auth.Accounts.{
  Tables, Draws, has_email, scalar_one_or_none, get_user_by_email, new_user, token_response,
  check_login, login, register,
}
use integrated_work.Auth.Accounts.Writes.{Added, register-IfOk}

validated-email :
    (req valid : RegisterRequest)
    → validated req ≡ ok valid
    → (valid.email ≡ normal_email req.email) × (valid.password ≡ req.password)
unfolding validated email_ok
validated-email req valid e = ground arith

keep-empty : {A : Type 0} (p : A → Bool) (xs : List A) → keep p xs ≡ [] → any p xs ≡ false
keep-empty p xs e = sym (nonempty-keep p xs) ∙ ap nonempty e

module _ {U K : Type 0} (services : Services U K) (settings : Settings)
    (pbkdf2_hmac : (password salt : List ℕ) → ℕ → Option (List ℕ)) where
  found_new :
      (draws : Draws) (valid : RegisterRequest) (hashed : Text) (db : U)
      → keep (has_email valid.email) (services.users db) ≡ []
      → let user = new_user services settings pbkdf2_hmac draws valid hashed db in
        get_user_by_email services settings pbkdf2_hmac (services.add_user user db) valid.email
        ≡ ok (some user)
  unfolding get_user_by_email scalar_one_or_none has_email new_user
  found_new draws valid hashed db free =
      let user = new_user services settings pbkdf2_hmac draws valid hashed db in
      rw
        (
          services.keep-add_user (has_email valid.email) user db
              (keep-empty (has_email valid.email) (services.users db) free),
          text_eq_refl valid.email,
        )
        refl

  checked_new :
      (draws later : Draws) (valid : RegisterRequest) (hashed password : Text) (db : U)
      → verify_password pbkdf2_hmac password hashed ≡ true
      → let user = new_user services settings pbkdf2_hmac draws valid hashed db in
        check_login services settings pbkdf2_hmac later password (some user)
        ≡ ok (
            token_response services settings pbkdf2_hmac
              (txt "Authentication successful")
              later
              user)
  unfolding check_login new_user
  checked_new draws later valid hashed password db e = rw (e) refl

  -- The request of `draws` logs in later.
  abbrev LogsIn : (later : Draws) → RegisterRequest → TokenResponse × Tables U K → Type 0
  LogsIn later req (r, db) =
      (s : TokenResponse) × (login services settings pbkdf2_hmac later req.email req.password
          db.users
        ≡ ok s)
      × (s.user ≡ r.user)

  added-LogsIn :
      (draws later : Draws) (req valid : RegisterRequest) (db : Tables U K) (hashed : Text)
      → validated req ≡ ok valid
      → keep (has_email valid.email) (services.users db.users) ≡ []
      → verify_password pbkdf2_hmac valid.password hashed ≡ true
      → LogsIn later req (Added services settings pbkdf2_hmac draws valid db hashed)
  unfolding login token_response
  added-LogsIn draws later req valid db hashed v free h =
      let (email, password) = validated-email req valid v in
      (
        token_response services settings pbkdf2_hmac (txt "Authentication successful") later
            (new_user services settings pbkdf2_hmac draws valid hashed db.users),
        rw (← email, ← password, found_new draws valid hashed db.users free)
            (checked_new draws later valid hashed valid.password db.users h),
        refl,
      )

  -- With a PBKDF2 whose keys are bytes, and a salt of bytes: after a registration that succeeded, a
  -- login with the address and the password of that request succeeds, for the account that it made.
  pub login-register :
      (draws later : Draws) (req : RegisterRequest) (db db' : Tables U K) (r : TokenResponse)
      → ((password s key : List ℕ) (n : ℕ) → pbkdf2_hmac password s n ≡ some key → Bytes key)
      → Bytes draws.salt
      → register services settings pbkdf2_hmac draws req db ≡ ok (r, db')
      → (s : TokenResponse) × (login services settings pbkdf2_hmac later req.email req.password
            db'.users
          ≡ ok s)
        × (s.user ≡ r.user)
  login-register draws later req db db' r bytes salt e = subst (IfOk (LogsIn later req)) e (
      register-IfOk services settings pbkdf2_hmac (LogsIn later req) draws req db
        λ valid hashed v free h.
          added-LogsIn draws later req valid db hashed v free
            (verify_password-hash_password pbkdf2_hmac draws.salt valid.password valid.password
              hashed bytes salt h).1)
