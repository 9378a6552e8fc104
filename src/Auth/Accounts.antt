-- ===== src/Auth/Accounts.antt =====
-- The routes of executor/api/auth_routes.py. A route's errors come before its writes.
pub mod Writes
pub mod Revoked
pub mod Rotation
pub mod Bootstrap
pub mod Login
pub mod Access
use integrated_work.Prelude.{
  ℕ, Bool, true, false, not, ◌&&◌, ◌||◌, Option, none, some, List, [], ◌∷◌, map, keep, any, length,
  nonempty, ltb, ◌==◌, if◌then◌else◌,
}
use integrated_work.Text.{Text, txt, text_eq}
use integrated_work.Auth.Requests.{
  RegisterRequest, validated, normal_email, role_for, from_model, UserOut, TokenResponse,
}
use integrated_work.Auth.Password.{hash_password, verify_password}
use integrated_work.Auth.Tokens.{
  Reply, ok, raised, crashed, ◌>>=◌, Settings, User, Claims, Services, claim_is, unauthorized,
  active, catch_http, create_access_token, create_refresh_token, decode_token, is_token_revoked,
  revoke_token, get_user, get_current_user, require_role,
}

pub record Tables (U K : Type 0) : Type 0 where
  pub users : U
  pub revoked : K

-- What a request draws from the clock and the random sources.
pub record Draws : Type 0 where
  pub now : ℕ
  pub new_id : Text
  pub salt : List ℕ
  pub access_jti : Text
  pub refresh_jti : Text

unfoldable pub has_email : Text → User → Bool
has_email email u = text_eq u.email email

-- res.scalar_one_or_none() raises when there are several.
unfoldable pub scalar_one_or_none {ℓ} : {A : Type ℓ} → List A → Reply (Option A)
scalar_one_or_none [] = ok none
scalar_one_or_none (x ∷ []) = ok (some x)
scalar_one_or_none (x ∷ y ∷ xs) = crashed

module _ {U K : Type 0} (services : Services U K) (settings : Settings)
    (pbkdf2_hmac : (password salt : List ℕ) → ℕ → Option (List ℕ)) where
  unfoldable pub token_response : Text → Draws → User → TokenResponse
  token_response message draws user = record {
    message = message;
    access_token = create_access_token services settings draws.access_jti draws.now user;
    refresh_token = create_refresh_token services settings draws.refresh_jti draws.now user;
    user = from_model user;
  }

  unfoldable pub get_user_by_email : U → Text → Reply (Option User)
  get_user_by_email db email = scalar_one_or_none (keep (has_email email) (services.users db))

  -- `User(…)` with the columns' defaults.
  unfoldable pub new_user : Draws → RegisterRequest → (hashed_password : Text) → U → User
  new_user draws req hashed_password db = record {
    id = draws.new_id;
    email = req.email;
    full_name = req.full_name;
    hashed_password = hashed_password;
    role = role_for (not (nonempty (services.users db))) req.role;
    is_active = true;
    created_at = draws.now;
  }

  -- db.add(user) and the commit, and the response
  unfoldable pub add_account :
      Draws
      → RegisterRequest
      → Tables U K
      → (hashed : Option Text) → Reply (TokenResponse × Tables U K)
  add_account draws req db none = crashed
  add_account draws req db (some hashed) =
      let user = new_user draws req hashed db.users in
      ok (
        token_response (txt "Authentication successful") draws user,
        record db { users = services.add_user user db.users },
      )

  unfoldable pub add_or_refuse :
      Draws
      → RegisterRequest
      → Tables U K
      → (found : Option User) → Reply (TokenResponse × Tables U K)
  add_or_refuse draws req db (some u) = raised 409 (txt "An account with this email already exists")
  add_or_refuse draws req db none =
      add_account draws req db (hash_password pbkdf2_hmac draws.salt req.password)

  -- The body, for a request that is valid.
  unfoldable pub register_valid :
      Draws → RegisterRequest → Tables U K → Reply (TokenResponse × Tables U K)
  register_valid draws req db =
      get_user_by_email db.users req.email >>= λ found. add_or_refuse draws req db found

  unfoldable pub register :
      Draws → RegisterRequest → Tables U K → Reply (TokenResponse × Tables U K)
  register draws req db = validated req >>= λ valid. register_valid draws valid db

  -- `not user or not verify_password(…)`, and the test of `is_active`
  unfoldable pub check_login : Draws → (password : Text) → Option User → Reply TokenResponse
  check_login draws password none = unauthorized (txt "Invalid email or password")
  check_login draws password (some user) =
      if verify_password pbkdf2_hmac password user.hashed_password
      then (if user.is_active
          then ok (token_response (txt "Authentication successful") draws user)
          else raised 403 (txt "Account is disabled"))
      else unauthorized (txt "Invalid email or password")

  unfoldable pub login : Draws → (email password : Text) → U → Reply TokenResponse
  login draws email password db =
      get_user_by_email db (normal_email email) >>= λ user. check_login draws password user

  -- db.get(User, UUID(payload["sub"])): a KeyError without the claim
  unfoldable pub required_user : Option Text → U → Reply (Option User)
  required_user none db = crashed
  required_user (some sub) db = get_user services settings sub db

  unfoldable pub refresh :
      Draws → (refresh_token : Text) → Tables U K → Reply (TokenResponse × Tables U K)
  refresh draws refresh_token db =
      decode_token services settings draws.now refresh_token >>= λ payload.
      if claim_is (txt "refresh") payload.type
      then (if is_token_revoked services settings payload.jti db.revoked
          then unauthorized (txt "Refresh token has been revoked")
          else (required_user payload.sub db.users >>= λ found. active found >>= λ user. ok (
            token_response (txt "Token refreshed") draws user,
            record db { revoked = revoke_token services settings draws.now payload db.revoked },
          )))
      else unauthorized (txt "Not a refresh token")

  unfoldable pub logged_out : (now : ℕ) → Reply Claims → Tables U K → Tables U K
  logged_out now (ok payload) db = record db {
    revoked = revoke_token services settings now payload db.revoked;
  }
  logged_out now _ db = db

  -- The response is the same for every token.
  unfoldable pub logout : (now : ℕ) → (refresh_token : Text) → Tables U K → Tables U K
  logout now refresh_token db = logged_out now (decode_token services settings now refresh_token) db

  unfoldable pub me : (now : ℕ) (creds : Option Text) → Tables U K → Reply UserOut
  me now creds db = get_current_user services settings now creds db.users db.revoked >>= λ user.
      ok (from_model user)

  -- Behind require_admin.
  unfoldable pub list_users : (now : ℕ) (creds : Option Text) → Tables U K → Reply (List UserOut)
  list_users now creds db =
      require_role services settings (txt "admin" ∷ []) now creds db.users db.revoked >>= λ _.
      ok (map from_model (services.newest_first db.users))

-- The calls that clients make, and what they leave. A call that fails leaves the tables as they were.
pub data Call : Type 0 where
  registers : Draws → RegisterRequest → Call
  logs_in : Draws → (email password : Text) → Call
  refreshes : Draws → (refresh_token : Text) → Call
  logs_out : (now : ℕ) → (refresh_token : Text) → Call

abbrev pub after {ℓ κ} : {A : Type ℓ} {S : Type κ} → S → Reply (A × S) → S
after s (ok (a, t)) = t
after s (raised status detail) = s
after s crashed = s

module _ {U K : Type 0} (services : Services U K) (settings : Settings)
    (pbkdf2_hmac : (password salt : List ℕ) → ℕ → Option (List ℕ)) where
  unfoldable pub call : Tables U K → Call → Tables U K
  call db (registers draws req) = after db (register services settings pbkdf2_hmac draws req db)
  call db (logs_in draws email password) = db
  call db (refreshes draws t) = after db (refresh services settings pbkdf2_hmac draws t db)
  call db (logs_out now t) = logout services settings pbkdf2_hmac now t db

  unfoldable pub calls : Tables U K → List Call → Tables U K
  calls db [] = db
  calls db (c ∷ cs) = calls (call db c) cs
