-- ===== src/Examples/Accounts.antt =====
-- The first account of an empty table: registered, logged in, refreshed and logged out.
use integrated_work.Text.{lstrip}
use integrated_work.Text.{lower}
use integrated_work.Text.{is_space}
use integrated_work.Auth.Startup.{administrator}
use integrated_work.Auth.Startup.{add_administrator}
use integrated_work.Auth.Requests.{normal_email}
use integrated_work.Auth.Requests.{is_email}
use integrated_work.Auth.Password.{hex_digit}
use integrated_work.Auth.Accounts.{logged_out}
use integrated_work.Auth.Accounts.{call}
use integrated_work.Auth.Startup.{add_if_absent}
use integrated_work.Auth.Startup.{bootstrap_given}
use integrated_work.Auth.Startup.{bootstrap_of}
use integrated_work.Auth.Startup.{event}
use integrated_work.Examples.Tokens.{find}
use integrated_work.Auth.Tokens.{revoke_token}
use integrated_work.Auth.Tokens.{read_claims}
use integrated_work.Auth.Tokens.{get_user}
use integrated_work.Auth.Tokens.{expires_at}
use integrated_work.Auth.Tokens.{create_token}
use integrated_work.Auth.Tokens.{create_access_token}
use integrated_work.Auth.Tokens.{blank}
use integrated_work.Auth.Tokens.{active}
use integrated_work.Auth.Requests.{from_model}
use integrated_work.Auth.Requests.{bootstrap_role}
use integrated_work.Auth.Accounts.{required_user}
use integrated_work.Auth.Tokens.{claim_is}
use integrated_work.Auth.Tokens.{decode_token}
use integrated_work.Text.{contains}
use integrated_work.Auth.Tokens.{is_token_revoked}
use integrated_work.Text.{strip}
use integrated_work.Auth.Password.{int_of}
use integrated_work.Auth.Password.{unhex}
use integrated_work.Auth.Password.{check_parts}
use integrated_work.Text.{split_on}
use integrated_work.Auth.Password.{four_parts}
use integrated_work.Auth.Password.{is_true}
use integrated_work.Examples.Tokens.{write_time}
use integrated_work.Auth.Requests.{role_for}
use integrated_work.Auth.Accounts.{new_user}
use integrated_work.Examples.Tokens.{write_text}
use integrated_work.Examples.Tokens.{read_text}
use integrated_work.Examples.Tokens.{write_claim}
use integrated_work.Examples.Tokens.{encode}
use integrated_work.Auth.Tokens.{create_refresh_token}
use integrated_work.Auth.Accounts.{token_response}
use integrated_work.Examples.Tokens.{read_claim}
use integrated_work.Examples.Tokens.{read_time}
use integrated_work.Examples.Tokens.{parse}
use integrated_work.Examples.Tokens.{judge}
use integrated_work.Auth.Accounts.{add_account}
use integrated_work.Auth.Accounts.{add_or_refuse}
use integrated_work.Prelude.{keep}
use integrated_work.Auth.Accounts.{scalar_one_or_none}
use integrated_work.Auth.Accounts.{get_user_by_email}
use integrated_work.Auth.Accounts.{register_valid}
use integrated_work.Auth.Requests.{pw_ok}
use integrated_work.Prelude.{any}
use integrated_work.Auth.Requests.{email_ok}
use integrated_work.Auth.Requests.{validated}
use integrated_work.Auth.Password.{hex}
use integrated_work.Auth.Password.{rounds}
use integrated_work.Text.{show_nat}
use integrated_work.Auth.Password.{utf8}
use mathlib.Core.Path.{subst}
use integrated_work.Prelude.{
  ℕ, ◌%◌, ◌≡◌, ◌≤◌, refl, true, false, Option, none, some, List, [], ◌∷◌, ◌++◌, map, arith, ◌↔◌,
  ◌≢◌,
}
use integrated_work.Text.{Text, txt, text_eq}
use integrated_work.Auth.Password.{hash_password, verify_password}
use integrated_work.Auth.Password.RoundTrip
use integrated_work.Auth.Password.RoundTrip.{Bytes}
use integrated_work.Auth.Tokens.{User, ok, crashed, Claims, Settings, decoded}
use integrated_work.Auth.Accounts.{
  Tables, Draws, Call, get_user_by_email, has_email, new_user, token_response, registers, logs_in,
  logs_out, register, refresh, login, logout, me, list_users, calls,
}
use integrated_work.Auth.Accounts.Writes.{Added}
use integrated_work.Auth.Accounts.Rotation
use integrated_work.Auth.Accounts.Bootstrap
use integrated_work.Auth.Startup.{BootstrapAdmin, Event, client, starts, events}
use integrated_work.Auth.Startup.Roles
use integrated_work.Auth.Accounts.Login
use integrated_work.Auth.Accounts.Access
use integrated_work.Auth.Requests.{RegisterRequest, TokenResponse}
use integrated_work.Examples.Tokens.{services}

abbrev settings : Settings
settings = record {
  access_token_expire_minutes = 30;
  refresh_token_expire_days = 7;
  auth_required = true;
}

-- A stand-in for PBKDF2 whose keys are bytes.
abbrev derive : (password salt : List ℕ) → ℕ → Option (List ℕ)
derive password salt n = some (map (λ c. c % 256) (password ++ salt))

mod-Bytes : (bs : List ℕ) → Bytes (map (λ c. c % 256) bs)
mod-Bytes [] = tt
mod-Bytes (b ∷ bs) = (omega arith, mod-Bytes bs)

derive-Bytes : (password salt key : List ℕ) (n : ℕ) → derive password salt n ≡ some key → Bytes key
derive-Bytes password salt key n e = subst Bytes (some-injective e) (mod-Bytes (password ++ salt))
  where
    some-injective : {x y : List ℕ} → some x ≡ some y → x ≡ y
    some-injective h = cc

abbrev draws : Draws
draws = record {
  now = 100;
  new_id = txt "u1";
  salt = 1 ∷ 200 ∷ [];
  access_jti = txt "a1";
  refresh_jti = txt "r1";
}

abbrev later : Draws
later = record draws { now = 160; access_jti = txt "a2"; refresh_jti = txt "r2" }

abbrev request : RegisterRequest
request = record {
  email = txt " Ann@Example.org ";
  password = txt "password";
  full_name = none;
  role = none;
}

abbrev valid : RegisterRequest
valid = record request { email = txt "ann@example.org" }

abbrev empty : Tables (List User) (List Text)
empty = record { users = []; revoked = [] }

abbrev hashed : Text
hashed = txt "pbkdf2_sha256$240000$01c8$70617373776f726401c8"

abbrev registered : TokenResponse × Tables (List User) (List Text)
registered = Added services settings derive draws valid empty hashed

hash_password-hashed : hash_password derive draws.salt (txt "password") ≡ some hashed
unfolding hash_password utf8 show_nat rounds hex
hash_password-hashed = refl

register-registered : register services settings derive draws request empty ≡ ok registered
unfolding register validated email_ok any pw_ok register_valid get_user_by_email scalar_one_or_none
    keep add_or_refuse add_account hash_password utf8 show_nat rounds hex
register-registered = refl

abbrev claims : Claims
claims = record {
  sub = some (txt "u1");
  role = some (txt "admin");
  type = some (txt "refresh");
  jti = some (txt "r1");
  iat = some 100;
  exp = some 604900;
}

decode_registered : services.decode 160 registered.0.refresh_token ≡ decoded claims
unfolding judge parse read_time read_claim token_response create_refresh_token encode write_claim
    read_text write_text new_user role_for write_time
decode_registered = refl

abbrev salt_bytes : Bytes draws.salt
salt_bytes = (omega arith, (omega arith, tt))

verify_password-hash_password_example :
    ((verify_password derive (txt "Password") hashed ≡ true) ↔ (
      RoundTrip.derived derive draws.salt (txt "Password")
      ≡ RoundTrip.derived derive draws.salt (txt "password")))
    × (verify_password derive (txt "password") hashed ≡ true)
verify_password-hash_password_example =
    RoundTrip.verify_password-hash_password derive draws.salt (txt "password") (txt "Password")
      hashed derive-Bytes salt_bytes hash_password-hashed

wrong_password : verify_password derive (txt "Password") hashed ≡ false
unfolding verify_password is_true four_parts split_on check_parts text_eq utf8 unhex int_of strip
    hex
wrong_password = refl

abbrev token : Text
token = registered.0.refresh_token

abbrev refreshed : TokenResponse × Tables (List User) (List Text)
refreshed = (
  token_response services settings derive (txt "Token refreshed") later
      (new_user services settings derive draws valid hashed []),
  record registered.1 { revoked = txt "r1" ∷ [] },
)

refresh-refreshed : refresh services settings derive later token registered.1 ≡ ok refreshed
unfolding refresh decode_token judge parse read_time read_claim token_response create_refresh_token
    encode write_claim read_text write_text new_user role_for write_time claim_is text_eq
    is_token_revoked required_user bootstrap_role from_model active blank create_access_token
    create_token expires_at get_user read_claims revoke_token contains find
refresh-refreshed = refl

abbrev visits : List Call
visits = logs_in later request.email (txt "password") ∷ logs_out 170 token ∷ []

refresh_twice_example :
    Rotation.is_unauthorized (
      refresh services settings derive later token
        (calls services settings derive refreshed.1 visits))
    ≡ true
unfolding text_eq
refresh_twice_example =
    Rotation.refresh_twice services settings derive claims (txt "r1") later later token registered.1
      refreshed.1 refreshed.0 visits decode_registered refl refl refresh-refreshed

is_unauthorized-logout_example :
    let gone =
      calls services settings derive
        (logout services settings derive 160 token registered.1)
        visits in
    (Rotation.is_unauthorized (refresh services settings derive later token gone) ≡ true)
    × (Rotation.is_unauthorized (me services settings derive later.now (some token) gone) ≡ true)
    × (Rotation.is_unauthorized (list_users services settings derive later.now (some token) gone)
        ≡ true)
unfolding text_eq
is_unauthorized-logout_example =
    Rotation.is_unauthorized-logout services settings derive claims (txt "r1") 160 later token
      registered.1 visits decode_registered refl refl

abbrev admin : BootstrapAdmin
admin = record {
  bootstrap_admin_email = some (txt "Root@example.org");
  bootstrap_admin_password = some (txt "secret");
}

-- Two starts around the registration.
abbrev history : List Event
history = client (registers draws request) ∷ starts later ∷ starts later ∷ []

-- The first account and the administrator.
two_privileged :
    Bootstrap.count services settings derive Bootstrap.privileged
      (events services settings derive admin empty history).users
    ≡ 2
unfolding keep events event bootstrap_of bootstrap_given add_if_absent get_user_by_email
    scalar_one_or_none call register validated email_ok any pw_ok register_valid add_or_refuse
    add_account has_email logged_out logout new_user refresh required_user token_response
    hash_password hex hex_digit rounds utf8 bootstrap_role from_model is_email normal_email role_for
    add_administrator administrator active blank claim_is create_access_token create_refresh_token
    create_token decode_token expires_at get_user is_token_revoked read_claims revoke_token contains
    is_space lower lstrip show_nat strip text_eq
two_privileged = refl

count-events_example :
    let rows = (events services settings derive admin empty history).users in
    (Bootstrap.count services settings derive (Roles.promoted (some (txt "Root@example.org"))) rows
      ≤ 1)
    × (Bootstrap.count services settings derive (has_email (txt "root@example.org")) rows ≤ 1)
    × (get_user_by_email services settings derive rows (txt "root@example.org") ≢ crashed)
count-events_example =
    Roles.count-events services settings derive admin history empty (txt "root@example.org") refl

login-register_example :
    (s : TokenResponse) × (login services settings derive later
        (txt " Ann@Example.org ")
        (txt "password")
        registered.1.users
      ≡ ok s)
    × (s.user ≡ registered.0.user)
login-register_example =
    Login.login-register services settings derive draws later request empty registered.1
      registered.0 derive-Bytes salt_bytes register-registered

register-Opens_example : Access.Opens services settings derive 160 registered
unfolding text_eq is_token_revoked contains
register-Opens_example =
    Access.register-Opens services settings derive draws request empty registered.1 registered.0 160
      (omega arith) (omega arith) refl refl refl register-registered
