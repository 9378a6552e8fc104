-- ===== src/Auth/Tokens.antt =====
-- Tokens, their revocation and the dependencies that guard a route: executor/api/auth.py. PyJWT and the
-- two tables are parameters; a time is in seconds, and the clock stands still within a request.
use integrated_work.Prelude.{
  ℕ, ◌+◌, ◌*◌, ◌≡◌, refl, ◌≤◌, ◌<◌, Bool, true, false, ◌||◌, Option, none, some, List, [], ◌∷◌,
  ◌++◌, ◌==◌, length, keep, any, if◌then◌else◌,
}
use integrated_work.Text.{Text, txt, text_eq, contains, join}

-- What a handler or a dependency ends with: a value, an HTTPException, or any other exception.
pub data Reply {ℓ} (A : Type ℓ) : Type ℓ where
  ok : A → Reply A
  raised : (status : ℕ) (detail : Text) → Reply A
  crashed : Reply A

infixl 5 ◌>>=◌
abbrev pub ◌>>=◌ {ℓ κ} : {A : Type ℓ} {B : Type κ} → Reply A → (A → Reply B) → Reply B
ok a >>= f = f a
raised status detail >>= f = raised status detail
crashed >>= f = crashed

-- The value satisfies P, if there is one.
abbrev pub IfOk {ℓ κ} : {A : Type ℓ} → (A → Type κ) → Reply A → Type κ
IfOk P (ok a) = P a
IfOk P _ = Unit

pub bind-IfOk {ℓ κ} :
    {A B : Type ℓ} (P : A → Type κ) (Q : B → Type κ) (m : Reply A) (f : A → Reply B)
    → IfOk P m
    → ((a : A) → P a → IfOk Q (f a))
    → IfOk Q (m >>= f)
bind-IfOk P Q (ok a) f h g = g a h
bind-IfOk P Q (raised status detail) f h g = tt
bind-IfOk P Q crashed f h g = tt

-- The same, where nothing is known of the first value.
pub bind-IfOk_any {ℓ κ} :
    {A B : Type ℓ} (Q : B → Type κ) (m : Reply A) (f : A → Reply B)
    → ((a : A) → IfOk Q (f a))
    → IfOk Q (m >>= f)
bind-IfOk_any Q (ok a) f g = g a
bind-IfOk_any Q (raised status detail) f g = tt
bind-IfOk_any Q crashed f g = tt

pub Reply-eq {ℓ} : {A : Type ℓ} (m : Reply A) → IfOk (λ a. m ≡ ok a) m
Reply-eq (ok a) = refl
Reply-eq (raised status detail) = tt
Reply-eq crashed = tt

pub if-IfOk {ℓ κ} :
    {A : Type ℓ} (P : A → Type κ) (c : Bool) (m n : Reply A)
    → (c ≡ true → IfOk P m)
    → (c ≡ false → IfOk P n)
    → IfOk P (if c then m else n)
if-IfOk P true m n h g = h refl
if-IfOk P false m n h g = g refl

-- The settings that the two files read.
pub record Settings : Type 0 where
  pub access_token_expire_minutes : ℕ
  pub refresh_token_expire_days : ℕ
  pub auth_required : Bool

pub record User : Type 0 where
  pub id : Text
  pub email : Text
  pub full_name : Option Text
  pub hashed_password : Text
  pub role : Text
  pub is_active : Bool
  pub created_at : ℕ

-- The claims of a token; one that a token does not have is none.
pub record Claims : Type 0 where
  pub sub : Option Text
  pub role : Option Text
  pub type : Option Text
  pub jti : Option Text
  pub iat : Option ℕ
  pub exp : Option ℕ

-- What jwt.decode does: it returns the claims or raises ExpiredSignatureError or another PyJWTError.
pub data Decoded : Type 0 where
  decoded : Claims → Decoded
  expired : Decoded
  invalid : Decoded

-- What the routes read from outside: PyJWT with the secret and the algorithm of the settings, uuid.UUID
-- followed by str, and the tables of users (U) and of revoked tokens (K).
pub record Services (U K : Type 0) : Type 0 where
  pub encode : Claims → Text
  pub decode : (now : ℕ) → Text → Decoded
  -- A token that was made here is read back until it expires.
  pub decode-encode :
      (c : Claims) (made now until : ℕ)
      → c.iat ≡ some made
      → c.exp ≡ some until
      → made ≤ now
      → now < until
      → decode now (encode c) ≡ decoded c
  -- The claims are those of the token, whenever it is read.
  pub decode_same :
      (t : Text) (c d : Claims) (m n : ℕ) → decode m t ≡ decoded c → decode n t ≡ decoded d → c ≡ d
  -- A token has two dots in it.
  pub encode_full : (c : Claims) → text_eq (encode c) [] ≡ false
  pub uuid : Text → Option Text
  -- select(User), session.get(User, …) and the commit of a new row. Rows come in any order.
  pub users : U → List User
  pub find_user : Text → U → Option User
  pub add_user : User → U → U
  pub find-add_user :
      (i : Text) (u : User) (db : U)
      → find_user i (add_user u db) ≡ (if text_eq u.id i then some u else find_user i db)
  pub count-add_user :
      (f : User → Bool) (u : User) (db : U)
      → length (keep f (users (add_user u db)))
        ≡ (if f u then 1 else 0) + length (keep f (users db))
  pub keep-add_user :
      (f : User → Bool) (u : User) (db : U)
      → any f (users db) ≡ false
      → keep f (users (add_user u db)) ≡ (if f u then u ∷ [] else [])
  -- select(User).order_by(User.created_at.desc()): the same rows.
  pub newest_first : U → List User
  pub count-newest_first :
      (f : User → Bool) (db : U) → length (keep f (newest_first db)) ≡ length (keep f (users db))
  -- session.get(RevokedToken, …) is not None, and the commit of a new row.
  pub is_revoked : Text → K → Bool
  pub add_revoked : (jti : Text) (expires_at : ℕ) → K → K
  pub revoked-add_revoked :
      (i j : Text) (e : ℕ) (db : K)
      → is_revoked i (add_revoked j e db) ≡ (text_eq j i || is_revoked i db)

-- `claim != word`, where a claim that is missing differs from every word.
unfoldable pub claim_is : Text → Option Text → Bool
claim_is word none = false
claim_is word (some c) = text_eq c word

-- `not s`
unfoldable pub blank : Option Text → Bool
unfolding text_eq
blank none = true
blank (some s) = text_eq s []

unfoldable pub expires_at : (now : ℕ) → Option ℕ → ℕ
expires_at now none = now
expires_at now (some e) = if e == 0 then now else e

-- The handlers below raise 401 with one of these details.
abbrev pub unauthorized {ℓ} : {A : Type ℓ} → Text → Reply A
unauthorized detail = raised 401 detail

unfoldable pub catch_http {ℓ} : {A : Type ℓ} → Reply A → Reply (Option A)
catch_http (ok a) = ok (some a)
catch_http (raised status detail) = ok none
catch_http crashed = crashed

-- `if not user or not user.is_active: raise …`
unfoldable pub active : Option User → Reply User
active none = unauthorized (txt "User not found or inactive")
active (some user) =
    if user.is_active then ok user else unauthorized (txt "User not found or inactive")

unfoldable pub read_claims : Decoded → Reply Claims
read_claims (decoded c) = ok c
read_claims expired = unauthorized (txt "Token has expired")
read_claims invalid = unauthorized (txt "Invalid authentication token")

module _ {U K : Type 0} (services : Services U K) (settings : Settings) where
  -- `jti` is the random identifier that uuid4 gives.
  unfoldable pub create_token : (jti : Text) (now : ℕ) (sub role type : Text) (lasts : ℕ) → Text
  create_token jti now sub role type lasts = services.encode (record {
    sub = some sub;
    role = some role;
    type = some type;
    jti = some jti;
    iat = some now;
    exp = some (now + lasts);
  })

  unfoldable pub create_access_token : (jti : Text) (now : ℕ) → User → Text
  unfolding create_token
  create_access_token jti now user =
      create_token jti now user.id user.role (txt "access")
        (60 * settings.access_token_expire_minutes)

  unfoldable pub create_refresh_token : (jti : Text) (now : ℕ) → User → Text
  unfolding create_token
  create_refresh_token jti now user =
      create_token jti now user.id user.role (txt "refresh")
        (86400 * settings.refresh_token_expire_days)

  unfoldable pub decode_token : (now : ℕ) → Text → Reply Claims
  unfolding read_claims
  decode_token now token = read_claims (services.decode now token)

  unfoldable pub is_token_revoked : Option Text → K → Bool
  unfolding text_eq
  is_token_revoked none db = false
  is_token_revoked (some jti) db = if text_eq jti [] then false else services.is_revoked jti db

  unfoldable pub revoke_token : (now : ℕ) → Claims → K → K
  unfolding blank expires_at
  revoke_token now payload db = elim payload.jti [
    | none ↦ db
    | some jti ↦
        if blank (some jti)
        then db
        else if services.is_revoked jti db
        then db
        else services.add_revoked jti (expires_at now payload.exp) db
  ]

  -- await db.get(User, uuid.UUID(sub)); uuid.UUID raises ValueError.
  unfoldable pub get_user : Text → U → Reply (Option User)
  get_user sub db = elim (services.uuid sub) [
    | none ↦ crashed
    | some i ↦ ok (services.find_user i db)
  ]

  -- `db.get(User, uuid.UUID(sub)) if sub else None`
  unfoldable pub subject : Option Text → U → Reply (Option User)
  unfolding text_eq
  subject none db = ok none
  subject (some sub) db = if text_eq sub [] then ok none else get_user sub db

  unfoldable pub user_from_token :
      (now : ℕ) (token : Text) → U → K → (expected_type : Text) → Reply User
  user_from_token now token users revoked expected_type = decode_token now token >>= λ payload.
      if claim_is expected_type payload.type
      then (if is_token_revoked payload.jti revoked
          then unauthorized (txt "Token has been revoked")
          else (subject payload.sub users >>= λ user. active user))
      else unauthorized (txt "Wrong token type")

  -- `creds` are the bearer's credentials, none without such a header.
  unfoldable pub get_current_user : (now : ℕ) (creds : Option Text) → U → K → Reply User
  get_current_user now none users revoked = unauthorized (txt "Authentication required")
  get_current_user now (some token) users revoked =
      if blank (some token)
      then unauthorized (txt "Authentication required")
      else user_from_token now token users revoked (txt "access")

  unfoldable pub get_optional_user : (now : ℕ) (creds : Option Text) → U → K → Reply (Option User)
  get_optional_user now none users revoked = ok none
  get_optional_user now (some token) users revoked =
      if blank (some token)
      then ok none
      else catch_http (user_from_token now token users revoked (txt "access"))

  -- The `_dep` that require_auth returns.
  unfoldable pub require_auth : (now : ℕ) (creds : Option Text) → U → K → Reply (Option User)
  require_auth now creds users revoked =
      if settings.auth_required
      then (get_current_user now creds users revoked >>= λ user. ok (some user))
      else get_optional_user now creds users revoked

  -- The `_dep` that require_role(*roles) returns, behind get_current_user.
  unfoldable pub require_role :
      (allowed : List Text) (now : ℕ) (creds : Option Text) → U → K → Reply User
  require_role allowed now creds users revoked =
      get_current_user now creds users revoked >>= λ user.
      if contains user.role allowed
      then ok user
      else raised 403 (txt "Insufficient permissions. Requires one of: " ++ join (txt ", ") allowed)
