-- ===== src/Auth/Startup.antt =====
-- The administrator that the lifespan of executor/api/main.py adds at start-up. Every exception in it is
-- caught and logged, and leaves the table as it was.
pub mod Roles
use integrated_work.Prelude.{
  ℕ, Bool, true, false, ◌||◌, Option, none, some, List, [], ◌∷◌, if◌then◌else◌,
}
use integrated_work.Text.{Text, txt, text_eq}
use integrated_work.Auth.Requests.{normal_email}
use integrated_work.Auth.Password.{hash_password}
use integrated_work.Auth.Tokens.{Reply, ok, raised, crashed, Settings, User, Services}
use integrated_work.Auth.Accounts.{Tables, Draws, get_user_by_email, Call, call}

-- settings.BOOTSTRAP_ADMIN_EMAIL and settings.BOOTSTRAP_ADMIN_PASSWORD
pub record BootstrapAdmin : Type 0 where
  pub bootstrap_admin_email : Option Text
  pub bootstrap_admin_password : Option Text

-- What happens to the server: a call of a client, or a start.
pub data Event : Type 0 where
  client : Call → Event
  starts : Draws → Event

unfoldable pub administrator : Draws → (email hashed_password : Text) → User
administrator draws email hashed_password = record {
  id = draws.new_id;
  email = email;
  full_name = some (txt "Administrator");
  hashed_password = hashed_password;
  role = txt "admin";
  is_active = true;
  created_at = draws.now;
}

module _ {U K : Type 0} (services : Services U K) (settings : Settings)
    (pbkdf2_hmac : (password salt : List ℕ) → ℕ → Option (List ℕ)) where
  unfoldable pub add_administrator : Draws → (email : Text) → (hashed : Option Text) → U → U
  add_administrator draws email none db = db
  add_administrator draws email (some hashed) db =
      services.add_user (administrator draws email hashed) db

  -- `if existing.scalar_one_or_none() is None`, under the `try`
  unfoldable pub add_if_absent :
      Draws → (email password : Text) → (existing : Reply (Option User)) → U → U
  add_if_absent draws email password (ok none) db =
      add_administrator draws email (hash_password pbkdf2_hmac draws.salt password) db
  add_if_absent draws email password (ok (some u)) db = db
  add_if_absent draws email password (raised status detail) db = db
  add_if_absent draws email password crashed db = db

  -- Of two settings that are given.
  unfoldable pub bootstrap_given : Draws → (email password : Text) → U → U
  unfolding text_eq
  bootstrap_given draws email password db =
      if text_eq email [] || text_eq password []
      then db
      else add_if_absent draws (normal_email email) password
          (get_user_by_email services settings pbkdf2_hmac db (normal_email email)) db

  -- `if settings.BOOTSTRAP_ADMIN_EMAIL and settings.BOOTSTRAP_ADMIN_PASSWORD`
  unfoldable pub bootstrap_of : Draws → (email password : Option Text) → U → U
  bootstrap_of draws none password db = db
  bootstrap_of draws (some email) none db = db
  bootstrap_of draws (some email) (some password) db = bootstrap_given draws email password db

  abbrev pub bootstrap_admin : BootstrapAdmin → Draws → U → U
  bootstrap_admin admin draws db =
      bootstrap_of draws admin.bootstrap_admin_email admin.bootstrap_admin_password db

  unfoldable pub event : BootstrapAdmin → Tables U K → Event → Tables U K
  event admin db (client c) = call services settings pbkdf2_hmac db c
  event admin db (starts draws) = record db { users = bootstrap_admin admin draws db.users }

  unfoldable pub events : BootstrapAdmin → Tables U K → List Event → Tables U K
  events admin db [] = db
  events admin db (e ∷ es) = events admin (event admin db e) es
