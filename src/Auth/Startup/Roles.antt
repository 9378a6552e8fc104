-- ===== src/Auth/Startup/Roles.antt =====
-- Who is registered when the server is started again and again.
use integrated_work.Prelude.{
  ℕ, ◌≤◌, ◌≡◌, ◌≢◌, refl, Bool, false, not, ◌&&◌, ◌||◌, Option, none, some, List, [], ◌∷◌, keep,
  arith, Bool-cases, inl, inr,
}
use integrated_work.Text.{Text, text_eq}
use integrated_work.Text.Laws.{text_eq_refl}
use integrated_work.Auth.Requests.{normal_email}
use integrated_work.Auth.Password.{hash_password}
use integrated_work.Auth.Tokens.{Reply, ok, raised, crashed, Settings, User, Services}
use integrated_work.Auth.Accounts.{Tables, Draws, has_email, scalar_one_or_none, get_user_by_email}
use integrated_work.Auth.Accounts.Bootstrap.{
  privileged, count, Inv, empty-Inv, add_user-Inv, call-Inv, at_most_one,
}
use integrated_work.Auth.Startup.{
  BootstrapAdmin, Event, client, starts, administrator, add_administrator, add_if_absent,
  bootstrap_given, bootstrap_of, event, events,
}

-- The account is the one of the setting.
abbrev pub is_configured : Option Text → User → Bool
is_configured none u = false
is_configured (some email) u = has_email (normal_email email) u

-- A role that neither register gives by itself nor the setting.
abbrev pub promoted : Option Text → User → Bool
promoted email u = privileged u && not (is_configured email u)

only : (email : Option Text) (u : User) → privileged u ≡ false → promoted email u ≡ false
only email u h = ground (arith, h)

none_found : (rows : List User) → scalar_one_or_none rows ≡ ok none → rows ≡ []
unfolding scalar_one_or_none
none_found [] h = refl
none_found (u ∷ []) h = cc
none_found (u ∷ w ∷ rows) h = cc

module _ {U K : Type 0} (services : Services U K) (settings : Settings)
    (pbkdf2_hmac : (password salt : List ℕ) → ℕ → Option (List ℕ)) where
  abbrev InvOf : (User → Bool) → U → Type 0
  InvOf rare db = Inv services settings pbkdf2_hmac rare db

  add_administrator-Inv :
      (rare : User → Bool) (draws : Draws) (email : Text) (hashed : Option Text) (db : U)
      → ((hash : Text) → rare (administrator draws email hash) ≡ false)
      → keep (has_email email) (services.users db) ≡ []
      → InvOf rare db
      → InvOf rare (add_administrator services settings pbkdf2_hmac draws email hashed db)
  unfolding add_administrator administrator
  add_administrator-Inv rare draws email none db plain free v = v
  add_administrator-Inv rare draws email (some hash) db plain free v =
      add_user-Inv services settings pbkdf2_hmac rare (administrator draws email hash) db free
        (rw (plain hash) (omega (arith, v.one_rare))) v

  add_if_absent-Inv :
      (rare : User → Bool) (draws : Draws) (email password : Text) (existing : Reply (Option User))
      (db : U)
      → ((hash : Text) → rare (administrator draws email hash) ≡ false)
      → scalar_one_or_none (keep (has_email email) (services.users db)) ≡ existing
      → InvOf rare db
      → InvOf rare (add_if_absent services settings pbkdf2_hmac draws email password existing db)
  unfolding add_if_absent
  add_if_absent-Inv rare draws email password (ok none) db plain e v =
      add_administrator-Inv rare draws email (hash_password pbkdf2_hmac draws.salt password) db
        plain (none_found _ e) v
  add_if_absent-Inv rare draws email password (ok (some u)) db plain e v = v
  add_if_absent-Inv rare draws email password (raised status detail) db plain e v = v
  add_if_absent-Inv rare draws email password crashed db plain e v = v

  not-promoted :
      (draws : Draws) (email hash : Text)
      → promoted (some email) (administrator draws (normal_email email) hash) ≡ false
  unfolding administrator has_email
  not-promoted draws email hash = ground (arith, text_eq_refl (normal_email email))

  bootstrap_of-Inv :
      (draws : Draws) (email password : Option Text) (db : U)
      → InvOf (promoted email) db
      → InvOf (promoted email) (bootstrap_of services settings pbkdf2_hmac draws email password db)
  unfolding bootstrap_of bootstrap_given get_user_by_email
  bootstrap_of-Inv draws none password db v = v
  bootstrap_of-Inv draws (some email) none db v = v
  bootstrap_of-Inv draws (some email) (some password) db v =
      elim (Bool-cases (text_eq email [] || text_eq password [])) [
        | inl e ↦ rw (e) v
        | inr e ↦ rw (e) (
            add_if_absent-Inv (promoted (some email)) draws (normal_email email) password _ db
              (λ hash. not-promoted draws email hash) refl v)
      ]

  events-Inv :
      (admin : BootstrapAdmin) (es : List Event) (db : Tables U K)
      → InvOf (promoted admin.bootstrap_admin_email) db.users
      → InvOf
          (promoted admin.bootstrap_admin_email)
          (events services settings pbkdf2_hmac admin db es).users
  unfolding events event
  events-Inv admin [] db v = v
  events-Inv admin (client c ∷ es) db v = events-Inv admin es _ (
      call-Inv services settings pbkdf2_hmac (promoted admin.bootstrap_admin_email)
        (only admin.bootstrap_admin_email) db c v)
  events-Inv admin (starts draws ∷ es) db v =
      events-Inv admin es _ (
        bootstrap_of-Inv draws admin.bootstrap_admin_email admin.bootstrap_admin_password db.users
          v)

  -- From an empty table of users, after any calls of clients and starts of the server, all with one
  -- setting of the administrator: besides the account with the address of the setting, at most one
  -- account has a role other than "user"; no address has two accounts; and so a look-up by address
  -- raises nothing.
  pub count-events :
      (admin : BootstrapAdmin) (es : List Event) (db : Tables U K) (email : Text)
      → services.users db.users ≡ []
      → let later = (events services settings pbkdf2_hmac admin db es).users in
        (count services settings pbkdf2_hmac (promoted admin.bootstrap_admin_email) later ≤ 1)
        × (count services settings pbkdf2_hmac (has_email email) later ≤ 1)
        × (get_user_by_email services settings pbkdf2_hmac later email ≢ crashed)
  unfolding get_user_by_email
  count-events admin es db email e =
      let v = events-Inv admin es db (
        empty-Inv services settings pbkdf2_hmac (promoted admin.bootstrap_admin_email) db.users
          e) in
      (v.one_rare, v.one_each email, at_most_one _ (v.one_each email))
