-- ===== src/Auth/Accounts/Revoked.antt =====
-- What is revoked stays revoked.
use integrated_work.Prelude.{ℕ, ◌≡◌, true, false, Option, some, List, [], ◌∷◌, arith}
use integrated_work.Text.{Text, text_eq}
use integrated_work.Text.Laws.{text_eq_refl}
use integrated_work.Auth.Tokens.{
  Reply, ok, raised, crashed, Settings, Claims, Services, blank, decode_token, revoke_token,
}
use integrated_work.Auth.Accounts.Writes.{after-IfOk, register-IfOk, refresh-IfOk}
use integrated_work.Auth.Accounts.{
  Tables, Draws, refresh, logged_out, logout, Call, registers, logs_in, refreshes, logs_out, after,
  call, calls,
}

module _ {U K : Type 0} (services : Services U K) (settings : Settings)
    (pbkdf2_hmac : (password salt : List ℕ) → ℕ → Option (List ℕ)) where
  abbrev pub Revoked : Text → Tables U K → Type 0
  Revoked jti db = services.is_revoked jti db.revoked ≡ true

  pub revoke_token-Revoked :
      (jti : Text) (now : ℕ) (payload : Claims) (db : K)
      → services.is_revoked jti db ≡ true
      → services.is_revoked jti (revoke_token services settings now payload db) ≡ true
  unfolding revoke_token
  revoke_token-Revoked jti now payload db h = grind (arith, services.revoked-add_revoked)

  pub revoked_now :
      (jti : Text) (now : ℕ) (payload : Claims) (db : K)
      → payload.jti ≡ some jti
      → text_eq jti [] ≡ false
      → services.is_revoked jti (revoke_token services settings now payload db) ≡ true
  unfolding revoke_token blank
  revoked_now jti now payload db e h = grind (arith, services.revoked-add_revoked, text_eq_refl)

  refresh-Revoked :
      (jti : Text) (draws : Draws) (t : Text) (db : Tables U K)
      → Revoked jti db
      → Revoked jti (after db (refresh services settings pbkdf2_hmac draws t db))
  refresh-Revoked jti draws t db h = after-IfOk (Revoked jti) db _ h (
      refresh-IfOk services settings pbkdf2_hmac (Revoked jti) draws t db
        λ c e. revoke_token-Revoked jti draws.now c db.revoked h)

  logged_out-Revoked :
      (jti : Text) (now : ℕ) (r : Reply Claims) (db : Tables U K)
      → Revoked jti db
      → Revoked jti (logged_out services settings pbkdf2_hmac now r db)
  unfolding logged_out
  logged_out-Revoked jti now (ok c) db h = revoke_token-Revoked jti now c db.revoked h
  logged_out-Revoked jti now (raised status detail) db h = h
  logged_out-Revoked jti now crashed db h = h

  call-Revoked :
      (jti : Text) (db : Tables U K) (c : Call)
      → Revoked jti db
      → Revoked jti (call services settings pbkdf2_hmac db c)
  unfolding call logout
  call-Revoked jti db (registers draws req) h = after-IfOk (Revoked jti) db _ h (
      register-IfOk services settings pbkdf2_hmac (λ p. Revoked jti p.1) draws req db
        λ valid hashed _ _ _. h)
  call-Revoked jti db (logs_in draws email password) h = h
  call-Revoked jti db (refreshes draws t) h = refresh-Revoked jti draws t db h
  call-Revoked jti db (logs_out now t) h =
      logged_out-Revoked jti now (decode_token services settings now t) db h

  pub calls-Revoked :
      (jti : Text) (cs : List Call) (db : Tables U K)
      → Revoked jti db
      → Revoked jti (calls services settings pbkdf2_hmac db cs)
  unfolding calls
  calls-Revoked jti [] db h = h
  calls-Revoked jti (c ∷ cs) db h = calls-Revoked jti cs _ (call-Revoked jti db c h)
