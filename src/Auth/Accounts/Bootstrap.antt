-- ===== src/Auth/Accounts/Bootstrap.antt =====
-- Who is registered: the roles and the addresses in the table of users.
use integrated_work.Prelude.{
  ℕ, ◌+◌, ◌≤◌, ◌≡◌, ◌≢◌, refl, ap, Bool, false, not, Option, List, [], ◌∷◌, length, keep,
  if◌then◌else◌, arith,
}
use integrated_work.Text.{Text, txt, text_eq}
use integrated_work.Text.Laws.{text_eq_iff}
use integrated_work.Auth.Requests.{RegisterRequest, role_for}
use integrated_work.Auth.Tokens.{crashed, Settings, User, Services, decode_token}
use integrated_work.Auth.Accounts.{
  Tables, Draws, has_email, scalar_one_or_none, new_user, logout, Call, registers, logs_in,
  refreshes, logs_out, call,
}
use integrated_work.Auth.Accounts.Writes.{after-IfOk, register-IfOk, refresh-IfOk, logged_out-users}

-- A role that register does not give by itself.
abbrev pub privileged : User → Bool
privileged u = not (text_eq u.role (txt "user"))

pub at_most_one : (rows : List User) → length rows ≤ 1 → scalar_one_or_none rows ≢ crashed
unfolding scalar_one_or_none
at_most_one [] h e = cc
at_most_one (u ∷ []) h e = cc
at_most_one (u ∷ w ∷ rows) h e = omega arith

module _ {U K : Type 0} (services : Services U K) (settings : Settings)
    (pbkdf2_hmac : (password salt : List ℕ) → ℕ → Option (List ℕ)) where
  abbrev pub count : (User → Bool) → U → ℕ
  count f db = length (keep f (services.users db))

  -- At most one row of a kind of privileged accounts, and at most one for each address.
  pub record Inv (rare : User → Bool) (db : U) : Type 0 where
    pub one_rare : count rare db ≤ 1
    pub one_each : (email : Text) → count (has_email email) db ≤ 1

  plain_role :
      (draws : Draws) (req : RegisterRequest) (hashed : Text) (db : U) (u : User) (rows : List User)
      → services.users db ≡ u ∷ rows
      → privileged (new_user services settings pbkdf2_hmac draws req hashed db) ≡ false
  unfolding new_user role_for text_eq
  plain_role draws req hashed db u rows e = rw (e) refl

  -- A new row of a client, by whether there is a row.
  count-new_user :
      (rare : User → Bool) (draws : Draws) (req : RegisterRequest) (hashed : Text) (db : U)
      (rows : List User)
      → ((u : User) → privileged u ≡ false → rare u ≡ false)
      → services.users db ≡ rows
      → length (keep rare rows) ≤ 1
      → (if rare (new_user services settings pbkdf2_hmac draws req hashed db) then 1 else 0)
          + length (keep rare rows)
        ≤ 1
  unfolding keep
  count-new_user rare draws req hashed db [] only e h = ground arith
  count-new_user rare draws req hashed db (u ∷ rows) only e h =
      let user = new_user services settings pbkdf2_hmac draws req hashed db in
      rw (only user (plain_role draws req hashed db u rows e)) (omega (arith, h))

  -- A row with an address that is free.
  one_more :
      (user : User) (db : U) (email : Text)
      → keep (has_email user.email) (services.users db) ≡ []
      → count (has_email email) db ≤ 1
      → (if has_email email user then 1 else 0) + count (has_email email) db ≤ 1
  unfolding has_email
  one_more user db email free h = ground (
    arith,
    text_eq_iff user.email email,
    ap (λ (rows : List User). length rows) free,
    ap (λ (e : Text). length (keep (has_email e) (services.users db))),
  )

  pub add_user-Inv :
      (rare : User → Bool) (user : User) (db : U)
      → keep (has_email user.email) (services.users db) ≡ []
      → (if rare user then 1 else 0) + count rare db ≤ 1
      → Inv rare db
      → Inv rare (services.add_user user db)
  add_user-Inv rare user db free few v = record {
    one_rare = rw (services.count-add_user rare user db) few;
    one_each = λ email.
        rw (services.count-add_user (has_email email) user db)
          (one_more user db email free (v.one_each email));
  }

  pub empty-Inv : (rare : User → Bool) (db : U) → services.users db ≡ [] → Inv rare db
  unfolding keep
  empty-Inv rare db e = record {
    one_rare = rw (e) (omega arith);
    one_each = λ email. rw (e) (omega arith);
  }

  module _ (rare : User → Bool) (only : (u : User) → privileged u ≡ false → rare u ≡ false) where
    pub call-Inv :
        (db : Tables U K) (c : Call)
        → Inv rare db.users
        → Inv rare (call services settings pbkdf2_hmac db c).users
    unfolding call logout new_user
    call-Inv db (registers draws req) v =
        after-IfOk (λ (t : Tables U K). Inv rare t.users) db _ v
          (register-IfOk services settings pbkdf2_hmac (λ p. Inv rare p.1.users) draws req db
            λ valid hashed _ free _.
              add_user-Inv rare (new_user services settings pbkdf2_hmac draws valid hashed db.users)
                db.users free
                (count-new_user rare draws valid hashed db.users (services.users db.users) only refl
                  v.one_rare)
                v)
    call-Inv db (logs_in draws email password) v = v
    call-Inv db (refreshes draws t) v =
        after-IfOk (λ (t : Tables U K). Inv rare t.users) db _ v
          (refresh-IfOk services settings pbkdf2_hmac (λ d. Inv rare d.users) draws t db λ c e. v)
    call-Inv db (logs_out now t) v =
        rw
          (logged_out-users services settings pbkdf2_hmac now (decode_token services settings now t)
            db)
          v
