-- ===== src/Auth/Accounts/Rotation.antt =====
-- A refresh token that was used or logged out is never accepted again.
use mathlib.Core.Path.{subst}
use integrated_work.Prelude.{
  ℕ, ◌==◌, ◌≡◌, refl, ap, ◌∙◌, Bool, true, false, Option, some, List, [], ◌∷◌, if◌then◌else◌, arith,
}
use integrated_work.Text.{Text, txt, text_eq}
use integrated_work.Auth.Requests.{TokenResponse}
use integrated_work.Auth.Tokens.{
  Reply, ok, raised, crashed, IfOk, ◌>>=◌, Settings, Claims, Services, Decoded, decoded, expired,
  invalid, blank, read_claims, decode_token, is_token_revoked, get_current_user, user_from_token,
  require_role,
}
use integrated_work.Auth.Accounts.Writes.{refresh-IfOk}
use integrated_work.Auth.Accounts.{
  Tables, Draws, refresh, me, list_users, logged_out, logout, Call, calls,
}
use integrated_work.Auth.Accounts.Revoked.{Revoked, calls-Revoked, revoked_now}

-- The client sees 401.
abbrev pub is_unauthorized {ℓ} : {A : Type ℓ} → Reply A → Bool
is_unauthorized (raised status detail) = status == 401
is_unauthorized _ = false

module _ {U K : Type 0} (services : Services U K) (settings : Settings)
    (pbkdf2_hmac : (password salt : List ℕ) → ℕ → Option (List ℕ)) where
  is_token_revoked-Revoked :
      (jti : Text) (db : K)
      → text_eq jti [] ≡ false
      → services.is_revoked jti db ≡ true
      → is_token_revoked services settings (some jti) db ≡ true
  unfolding is_token_revoked
  is_token_revoked-Revoked jti db b r = rw (b) r

  -- The token t is one with these claims, of which `jti` is one and not empty.
  abbrev pub Bears : Claims → Text → Text → Type 0
  Bears c jti t =
      ((n : ℕ) (e : Claims) → services.decode n t ≡ decoded e → e ≡ c)
      × (c.jti ≡ some jti)
      × (text_eq jti [] ≡ false)

  module _ (c : Claims) (jti t : Text) (bears : Bears c jti t) (db : Tables U K)
      (revoked : Revoked services settings pbkdf2_hmac jti db) where
    seen_revoked :
        (n : ℕ) (e : Claims)
        → services.decode n t ≡ decoded e
        → is_token_revoked services settings e.jti db.revoked ≡ true
    seen_revoked n e h =
        ap (λ (j : Option Text). is_token_revoked services settings j db.revoked)
          (ap (λ (x : Claims). x.jti) (bears.0 n e h) ∙ bears.1)
        ∙ is_token_revoked-Revoked jti db.revoked bears.2 revoked

    -- A token with a revoked identifier is refused, whatever else is the matter with it.
    refresh_refused :
        (draws : Draws) (d : Decoded)
        → services.decode draws.now t ≡ d
        → is_unauthorized (refresh services settings pbkdf2_hmac draws t db) ≡ true
    unfolding refresh decode_token read_claims
    refresh_refused draws (decoded e) h = rw (h, seen_revoked draws.now e h) (ground arith)
    refresh_refused draws expired h = rw (h) refl
    refresh_refused draws invalid h = rw (h) refl

    access_refused :
        (now : ℕ) (d : Decoded)
        → services.decode now t ≡ d
        → is_unauthorized
            (user_from_token services settings now t db.users db.revoked (txt "access"))
          ≡ true
    unfolding user_from_token decode_token read_claims
    access_refused now (decoded e) h = rw (h, seen_revoked now e h) (ground arith)
    access_refused now expired h = rw (h) refl
    access_refused now invalid h = rw (h) refl

  read_as :
      (n : ℕ) (t : Text) (c e : Claims)
      → services.decode n t ≡ decoded c
      → decode_token services settings n t ≡ ok e
      → e ≡ c
  unfolding decode_token read_claims
  read_as n t c e h g = ground arith

  Bears-read :
      (n : ℕ) (t : Text) (c : Claims) (jti : Text)
      → services.decode n t ≡ decoded c
      → c.jti ≡ some jti
      → text_eq jti [] ≡ false
      → Bears c jti t
  Bears-read n t c jti h g b = (λ m e k. services.decode_same t e c m n k h, g, b)

  refreshed-Revoked :
      (c : Claims) (jti : Text) (draws : Draws) (t : Text) (db : Tables U K)
      → services.decode draws.now t ≡ decoded c
      → c.jti ≡ some jti
      → text_eq jti [] ≡ false
      → IfOk
          (λ (p : TokenResponse × Tables U K). Revoked services settings pbkdf2_hmac jti p.1)
          (refresh services settings pbkdf2_hmac draws t db)
  refreshed-Revoked c jti draws t db h g b =
      refresh-IfOk services settings pbkdf2_hmac (Revoked services settings pbkdf2_hmac jti) draws t
        db
        λ e k.
          revoked_now services settings pbkdf2_hmac jti draws.now e db.revoked
            (ap (λ (x : Claims). x.jti) (read_as draws.now t c e h k) ∙ g) b

  logged_out_now :
      (c : Claims) (jti : Text) (now : ℕ) (t : Text) (db : Tables U K)
      → services.decode now t ≡ decoded c
      → c.jti ≡ some jti
      → text_eq jti [] ≡ false
      → Revoked services settings pbkdf2_hmac jti (logout services settings pbkdf2_hmac now t db)
  unfolding logout logged_out decode_token read_claims
  logged_out_now c jti now t db h g b =
      rw (h) (revoked_now services settings pbkdf2_hmac jti now c db.revoked g b)

  if-unauthorized :
      {A : Type 0} (b : Bool) (m n : Reply A)
      → is_unauthorized m ≡ true
      → is_unauthorized n ≡ true
      → is_unauthorized (if b then m else n) ≡ true
  if-unauthorized true m n h g = h
  if-unauthorized false m n h g = g

  bind-unauthorized :
      {A B : Type 0} (m : Reply A) (f : A → Reply B)
      → is_unauthorized m ≡ true
      → is_unauthorized (m >>= f) ≡ true
  bind-unauthorized (ok a) f h = ground arith
  bind-unauthorized (raised status detail) f h = h
  bind-unauthorized crashed f h = h

  me_refused :
      (now : ℕ) (t : Text) (db : Tables U K)
      → is_unauthorized (user_from_token services settings now t db.users db.revoked (txt "access"))
        ≡ true
      → is_unauthorized (me services settings pbkdf2_hmac now (some t) db) ≡ true
  unfolding me get_current_user
  me_refused now t db h =
      bind-unauthorized (get_current_user services settings now (some t) db.users db.revoked) _
        (if-unauthorized (blank (some t)) _ _ refl h)

  list_users_refused :
      (now : ℕ) (t : Text) (db : Tables U K)
      → is_unauthorized (user_from_token services settings now t db.users db.revoked (txt "access"))
        ≡ true
      → is_unauthorized (list_users services settings pbkdf2_hmac now (some t) db) ≡ true
  unfolding list_users require_role get_current_user
  list_users_refused now t db h =
      bind-unauthorized
        (require_role services settings (txt "admin" ∷ []) now (some t) db.users db.revoked) _
        (bind-unauthorized (get_current_user services settings now (some t) db.users db.revoked) _
          (if-unauthorized (blank (some t)) _ _ refl h))

  -- A refresh token with an identifier that is not empty is good for one refresh: once a refresh with
  -- it has succeeded, then after any calls of clients, at any time, a refresh with it is answered 401.
  pub refresh_twice :
      (c : Claims) (jti : Text) (draws later : Draws) (t : Text) (db db' : Tables U K)
      (r : TokenResponse) (cs : List Call)
      → services.decode draws.now t ≡ decoded c
      → c.jti ≡ some jti
      → text_eq jti [] ≡ false
      → refresh services settings pbkdf2_hmac draws t db ≡ ok (r, db')
      → is_unauthorized (
          refresh services settings pbkdf2_hmac later t
            (calls services settings pbkdf2_hmac db' cs))
        ≡ true
  refresh_twice c jti draws later t db db' r cs h g b e =
      refresh_refused c jti t (Bears-read draws.now t c jti h g b) _
        (calls-Revoked services settings pbkdf2_hmac jti cs db' (
          subst
            (IfOk λ (p : TokenResponse × Tables U K). Revoked services settings pbkdf2_hmac jti p.1)
            e (refreshed-Revoked c jti draws t db h g b)))
        later _ refl

  -- A token, of either kind, with an identifier that is not empty is dead after a logout that could
  -- read it: after any calls of clients, at any time, a refresh with it is answered 401, and so are,
  -- where it is sent to authenticate a request, `me` and the list of users.
  pub is_unauthorized-logout :
      (c : Claims) (jti : Text) (now : ℕ) (later : Draws) (t : Text) (db : Tables U K)
      (cs : List Call)
      → services.decode now t ≡ decoded c
      → c.jti ≡ some jti
      → text_eq jti [] ≡ false
      → let gone =
          calls services settings pbkdf2_hmac (logout services settings pbkdf2_hmac now t db) cs in
        (is_unauthorized (refresh services settings pbkdf2_hmac later t gone) ≡ true)
        × (is_unauthorized (me services settings pbkdf2_hmac later.now (some t) gone) ≡ true)
        × (is_unauthorized (list_users services settings pbkdf2_hmac later.now (some t) gone)
            ≡ true)
  is_unauthorized-logout c jti now later t db cs h g b =
      let dead =
        calls-Revoked services settings pbkdf2_hmac jti cs
          (logout services settings pbkdf2_hmac now t db) (logged_out_now c jti now t db h g b) in
      let refused = access_refused c jti t (Bears-read now t c jti h g b) _ dead later.now _ refl in
      (
        refresh_refused c jti t (Bears-read now t c jti h g b) _ dead later _ refl,
        me_refused later.now t _ refused,
        list_users_refused later.now t _ refused,
      )
