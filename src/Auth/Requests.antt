-- ===== src/Auth/Requests.antt =====
-- The requests, their validators and the responses of executor/api/auth_routes.py.
use integrated_work.Prelude.{
  ℕ, Bool, false, not, ◌&&◌, ◌||◌, Option, none, some, List, [], ◌∷◌, any, length, nonempty, ltb,
  ◌==◌, if◌then◌else◌,
}
use integrated_work.Text.{Text, txt, contains, strip, lower, is_space}
use integrated_work.Auth.Tokens.{Reply, ok, raised, User}

-- Some "." has a character before and behind it.
has_inner_dot : Text → Bool
has_inner_dot [] = false
has_inner_dot (c ∷ s) = (c == b'.' && nonempty s) || has_inner_dot s

dotted : Text → Bool
unfolding has_inner_dot
dotted [] = false
dotted (c ∷ s) = has_inner_dot s

free_of : (ℕ → Bool) → Text → Bool
free_of p s = not (any p s)

-- [^@\s]+\.[^@\s]+
is_domain : Text → Bool
unfolding dotted free_of is_space
is_domain s = dotted s && free_of (λ c. is_space c || c == b'@') s

-- [^@\s]*@[^@\s]+\.[^@\s]+
has_domain : Text → Bool
unfolding is_domain is_space
has_domain [] = false
has_domain (c ∷ s) =
    let rest = has_domain s in if c == b'@' then is_domain s else not (is_space c) && rest

-- _EMAIL_RE.match(s), where s does not end in a line feed
unfoldable pub is_email : Text → Bool
unfolding has_domain
is_email [] = false
is_email (c ∷ s) = not (c == b'@') && has_domain (c ∷ s)

-- v.strip().lower()
unfoldable pub normal_email : Text → Text
unfolding strip lower
normal_email v = lower (strip v)

-- RegisterRequest._email_ok and _pw_ok; none is a ValueError.
unfoldable pub email_ok : Text → Option Text
unfolding normal_email is_email
email_ok v = if is_email (normal_email v) then some (normal_email v) else none

unfoldable pub pw_ok : Text → Bool
pw_ok v = not (ltb (length v) 8)

pub record RegisterRequest : Type 0 where
  pub email : Text
  pub password : Text
  pub full_name : Option Text
  pub role : Option Text

-- The request as its validators leave it; FastAPI answers 422 to a ValueError.
unfoldable pub validated : RegisterRequest → Reply RegisterRequest
validated req = elim (email_ok req.email) [
  | none ↦ raised 422 (txt "Validation error")
  | some e ↦
      if pw_ok req.password
      then ok (record req { email = e })
      else raised 422 (txt "Validation error")
]

pub record UserOut : Type 0 where
  pub id : Text
  pub email : Text
  pub full_name : Option Text
  pub role : Text
  pub is_active : Bool
  pub created_at : ℕ

unfoldable pub from_model : User → UserOut
from_model u = record {
  id = u.id;
  email = u.email;
  full_name = u.full_name;
  role = u.role;
  is_active = u.is_active;
  created_at = u.created_at;
}

-- `success` and `token_type` are constants.
pub record TokenResponse : Type 0 where
  pub message : Text
  pub access_token : Text
  pub refresh_token : Text
  pub user : UserOut

-- {r.value for r in UserRole}
abbrev pub valid_roles : List Text
valid_roles = txt "admin" ∷ txt "user" ∷ txt "viewer" ∷ []

-- req.role if req.role in _VALID_ROLES else "admin"
unfoldable pub bootstrap_role : Option Text → Text
bootstrap_role none = txt "admin"
bootstrap_role (some role) = if contains role valid_roles then role else txt "admin"

-- The role of a new user.
unfoldable pub role_for : (is_first : Bool) → Option Text → Text
unfolding bootstrap_role
role_for is_first requested = if is_first then bootstrap_role requested else txt "user"
