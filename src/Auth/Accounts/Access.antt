-- ===== src/Auth/Accounts/Access.antt =====
-- What the access token of a new account opens.
use mathlib.Core.Path.{subst}
use integrated_work.Prelude.{
  ℕ, ◌+◌, ◌*◌, ◌≤◌, ◌<◌, ◌≡◌, refl, ap, ◌∙◌, true, false, Option, some, List, [], map,
  if◌then◌else◌, arith,
}
use integrated_work.Text.{Text, txt, text_eq, contains, join}
use integrated_work.Text.Laws.{text_eq_iff, text_eq_refl}
use integrated_work.Auth.Requests.{RegisterRequest, TokenResponse, from_model}
use integrated_work.Auth.Tokens.{
  ok, raised, IfOk, Settings, User, Claims, Services, claim_is, blank, create_token,
  create_access_token, read_claims, decode_token, is_token_revoked, get_user, subject, active,
  user_from_token, get_current_user, require_role,
}
use integrated_work.Auth.Accounts.{
  Tables, Draws, new_user, token_response, register, me, list_users,
}
use integrated_work.Auth.Accounts.Writes.{Added, register-IfOk}

module _ {U K : Type 0} (services : Services U K) (settings : Settings)
    (pbkdf2_hmac : (password salt : List ℕ) → ℕ → Option (List ℕ)) where
  -- A token that create_token made, read before it expires.
  read_new :
      (jti : Text) (made now : ℕ) (user : User)
      → made ≤ now
      → now < made + 60 * settings.access_token_expire_minutes
      → (c : Claims) × (decode_token services settings now
            (create_access_token services settings jti made user)
          ≡ ok c)
        × (c.sub ≡ some user.id)
        × (c.type ≡ some (txt "access"))
        × (c.jti ≡ some jti)
  unfolding create_access_token create_token decode_token read_claims
  read_new jti made now user h g =
      (_, ap read_claims (services.decode-encode _ made now _ refl refl h g), refl, refl, refl)

  get_user-known :
      (i : Text) (db : U)
      → services.uuid i ≡ some i
      → get_user services settings i db ≡ ok (services.find_user i db)
  unfolding get_user
  get_user-known i db e = rw (e, get_user) refl

  full_token :
      (jti : Text) (now : ℕ) (user : User)
      → blank (some (create_access_token services settings jti now user)) ≡ false
  unfolding blank create_access_token create_token
  full_token jti now user = services.encode_full _

  authenticated :
      (jti : Text) (made now : ℕ) (user : User) (db : Tables U K)
      → made ≤ now
      → now < made + 60 * settings.access_token_expire_minutes
      → text_eq user.id [] ≡ false
      → services.uuid user.id ≡ some user.id
      → services.find_user user.id db.users ≡ some user
      → user.is_active ≡ true
      → is_token_revoked services settings (some jti) db.revoked ≡ false
      → get_current_user services settings now
          (some (create_access_token services settings jti made user))
          db.users
          db.revoked
        ≡ ok user
  unfolding get_current_user user_from_token claim_is text_eq subject active
  authenticated jti made now user db h g id uuid found act fresh =
      let (c, read, sub, kind, j) = read_new jti made now user h g in
      rw
        (
          full_token jti made user,
          read,
          kind,
          j,
          fresh,
          sub,
          id,
          get_user-known user.id db.users uuid,
          found,
          act,
        )
        refl

  -- What the access token of a response opens.
  abbrev pub Opens : (now : ℕ) → TokenResponse × Tables U K → Type 0
  Opens now (r, db) =
      (me services settings pbkdf2_hmac now (some r.access_token) db ≡ ok r.user)
      × (list_users services settings pbkdf2_hmac now (some r.access_token) db ≡ (
          if text_eq r.user.role (txt "admin")
          then ok (map from_model (services.newest_first db.users))
          else raised 403 (txt "Insufficient permissions. Requires one of: admin")))

  added-Opens :
      (draws : Draws) (valid : RegisterRequest) (hashed : Text) (db : Tables U K) (now : ℕ)
      → draws.now ≤ now
      → now < draws.now + 60 * settings.access_token_expire_minutes
      → text_eq draws.new_id [] ≡ false
      → services.uuid draws.new_id ≡ some draws.new_id
      → is_token_revoked services settings (some draws.access_jti) db.revoked ≡ false
      → Opens now (Added services settings pbkdf2_hmac draws valid db hashed)
  unfolding me list_users require_role token_response new_user from_model contains join
  added-Opens draws valid hashed db now h g id uuid fresh =
      let user = new_user services settings pbkdf2_hmac draws valid hashed db.users in
      let later = (Added services settings pbkdf2_hmac draws valid db hashed).1 in
      let seen =
        authenticated draws.access_jti draws.now now user later h g id uuid
          (services.find-add_user draws.new_id user db.users
            ∙ ap (λ b. if b then some user else services.find_user draws.new_id db.users)
                (text_eq_refl draws.new_id))
          refl fresh in
      (
        rw (seen) refl,
        rw (seen) (
            ground
              (arith, text_eq_iff (txt "admin") user.role, text_eq_iff user.role (txt "admin"))),
      )

  -- Within the time that an access token lasts after a registration, and when the new identifiers are
  -- what they should be (a UUID for the account, and for the token one that is not revoked): the access
  -- token of the response opens `me`, with the account that was made; and it opens the list of the
  -- users if the account is an admin's, and is answered 403 there if not.
  pub register-Opens :
      (draws : Draws) (req : RegisterRequest) (db db' : Tables U K) (r : TokenResponse) (now : ℕ)
      → draws.now ≤ now
      → now < draws.now + 60 * settings.access_token_expire_minutes
      → text_eq draws.new_id [] ≡ false
      → services.uuid draws.new_id ≡ some draws.new_id
      → is_token_revoked services settings (some draws.access_jti) db.revoked ≡ false
      → register services settings pbkdf2_hmac draws req db ≡ ok (r, db')
      → Opens now (r, db')
  register-Opens draws req db db' r now h g id uuid fresh e = subst (IfOk (Opens now)) e (
      register-IfOk services settings pbkdf2_hmac (Opens now) draws req db
        λ valid hashed _ _ _. added-Opens draws valid hashed db now h g id uuid fresh)
