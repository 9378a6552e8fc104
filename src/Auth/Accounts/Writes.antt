-- ===== src/Auth/Accounts/Writes.antt =====
-- What the routes write, case by case.
use integrated_work.Prelude.{ℕ, ◌≡◌, refl, Option, none, some, List, [], ◌∷◌, keep}
use integrated_work.Text.{Text, txt}
use integrated_work.Auth.Password.{hash_password}
use integrated_work.Auth.Requests.{RegisterRequest, TokenResponse, validated}
use integrated_work.Auth.Tokens.{
  Reply, ok, raised, crashed, IfOk, bind-IfOk, bind-IfOk_any, if-IfOk, Reply-eq, Settings, User,
  Claims, Services, claim_is, active, decode_token, is_token_revoked, revoke_token,
}
use integrated_work.Auth.Accounts.{
  Tables, Draws, has_email, scalar_one_or_none, get_user_by_email, new_user, token_response,
  add_account, add_or_refuse, required_user, refresh, logged_out, register, register_valid, after,
}

pub after-IfOk {ℓ κ μ} :
    {A : Type ℓ} {S : Type κ} (P : S → Type μ) (s : S) (r : Reply (A × S))
    → P s
    → IfOk (λ (p : A × S). P p.1) r
    → P (after s r)
after-IfOk P s (ok p) h g = g
after-IfOk P s (raised status detail) h g = h
after-IfOk P s crashed h g = h

none_found {ℓ} :
    {A : Type ℓ} (xs : List A)
    → IfOk (λ (found : Option A). found ≡ none → xs ≡ []) (scalar_one_or_none xs)
unfolding scalar_one_or_none
none_found [] = λ _. refl
none_found (x ∷ []) = λ e. cc
none_found (x ∷ y ∷ xs) = tt

module _ {U K : Type 0} (services : Services U K) (settings : Settings)
    (pbkdf2_hmac : (password salt : List ℕ) → ℕ → Option (List ℕ)) where
  -- The response and the tables of a request that adds an account.
  abbrev pub Added :
      Draws → RegisterRequest → Tables U K → (hashed : Text) → TokenResponse × Tables U K
  Added draws req db hashed =
      let user = new_user services settings pbkdf2_hmac draws req hashed db.users in
      (
        token_response services settings pbkdf2_hmac (txt "Authentication successful") draws user,
        record db { users = services.add_user user db.users },
      )

  -- A registration adds an account, of a valid request, with the hash of its password, where no row has
  -- its address.
  abbrev pub WhenAdded :
      (P : TokenResponse × Tables U K → Type 0) → Draws → RegisterRequest → Tables U K → Type 0
  WhenAdded P draws req db =
      (valid : RegisterRequest) (hashed : Text)
      → validated req ≡ ok valid
      → keep (has_email valid.email) (services.users db.users) ≡ []
      → hash_password pbkdf2_hmac draws.salt valid.password ≡ some hashed
      → P (Added draws valid db hashed)

  add_account-IfOk :
      (P : TokenResponse × Tables U K → Type 0) (draws : Draws) (req : RegisterRequest)
      (db : Tables U K) (o : Option Text)
      → ((hashed : Text) → o ≡ some hashed → P (Added draws req db hashed))
      → IfOk P (add_account services settings pbkdf2_hmac draws req db o)
  unfolding add_account
  add_account-IfOk P draws req db none f = tt
  add_account-IfOk P draws req db (some hashed) f = f hashed refl

  add_or_refuse-IfOk :
      (P : TokenResponse × Tables U K → Type 0) (draws : Draws) (req : RegisterRequest)
      (db : Tables U K) (found : Option User)
      → ((hashed : Text)
          → found ≡ none
          → hash_password pbkdf2_hmac draws.salt req.password ≡ some hashed
          → P (Added draws req db hashed))
      → IfOk P (add_or_refuse services settings pbkdf2_hmac draws req db found)
  unfolding add_or_refuse
  add_or_refuse-IfOk P draws req db (some u) f = tt
  add_or_refuse-IfOk P draws req db none f =
      add_account-IfOk P draws req db (hash_password pbkdf2_hmac draws.salt req.password)
        (λ hashed e. f hashed refl e)

  pub register-IfOk :
      (P : TokenResponse × Tables U K → Type 0) (draws : Draws) (req : RegisterRequest)
      (db : Tables U K)
      → WhenAdded P draws req db
      → IfOk P (register services settings pbkdf2_hmac draws req db)
  unfolding register register_valid get_user_by_email
  register-IfOk P draws req db f =
      bind-IfOk (λ v. validated req ≡ ok v) P (validated req) _ (Reply-eq (validated req))
        λ v e.
          let rows = keep (has_email v.email) (services.users db.users) in
          bind-IfOk (λ (found : Option User). found ≡ none → rows ≡ []) P (scalar_one_or_none rows)
            _ (none_found rows)
            λ found g. add_or_refuse-IfOk P draws v db found (λ hashed n h. f v hashed e (g n) h)

  -- A refresh leaves the users, and revokes the token that it read.
  pub refresh-IfOk :
      (P : Tables U K → Type 0) (draws : Draws) (t : Text) (db : Tables U K)
      → ((c : Claims)
          → decode_token services settings draws.now t ≡ ok c
          → P (record db { revoked = revoke_token services settings draws.now c db.revoked }))
      → IfOk
          (λ (p : TokenResponse × Tables U K). P p.1)
          (refresh services settings pbkdf2_hmac draws t db)
  unfolding refresh
  refresh-IfOk P draws t db f =
      let Q = λ (p : TokenResponse × Tables U K). P p.1 in
      bind-IfOk (λ c. decode_token services settings draws.now t ≡ ok c) Q _ _
        (Reply-eq (decode_token services settings draws.now t))
        λ c e.
          if-IfOk Q (claim_is (txt "refresh") c.type) _ _
            (λ _.
              if-IfOk Q (is_token_revoked services settings c.jti db.revoked) _ _ (λ _. tt)
                (λ _.
                  bind-IfOk_any Q (required_user services settings pbkdf2_hmac c.sub db.users) _
                    λ found. bind-IfOk_any Q (active found) _ λ user. f c e))
            (λ _. tt)

  pub logged_out-users :
      (now : ℕ) (r : Reply Claims) (db : Tables U K)
      → (logged_out services settings pbkdf2_hmac now r db).users ≡ db.users
  unfolding logged_out
  logged_out-users now (ok c) db = refl
  logged_out-users now (raised status detail) db = refl
  logged_out-users now crashed db = refl
