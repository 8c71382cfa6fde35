-- ===== src/Authentication.antt =====
-- Authentication: src/application/authentication.py and the tokens of src/infrastructure/security.py.
-- PyJWT and Argon2 are parameters: how a token is written and read, and whether a password fits a hash.
-- Times are seconds.
pub mod Tokens
mod Tests
use family_assistant_kernel.Prelude.{
  ℕ, ◌+◌, ◌*◌, Bool, true, false, not, ◌&&◌, ltb, ◌==◌, str_eq, String, Option, none, some, List,
  [], ◌∷◌, if◌then◌else◌,
}
use family_assistant_kernel.Exec.{Error, Result, ok, err, authentication, value_error, key_error}
use family_assistant_kernel.Storage.{find}

-- the claim `sub` of a payload: there or not, and a decimal number or not
pub data Subject : Type 0 where
  no_subject : Subject
  text : String → Subject
  number : ℕ → Subject

pub record Payload : Type 0 where
  pub subject : Subject
  pub token_type : Option String
  pub exp : Option ℕ

-- what `jwt.decode` does: it raises ExpiredSignatureError or InvalidTokenError, or returns the payload
pub data Decoded : Type 0 where
  expired invalid : Decoded
  decoded : Payload → Decoded

-- the text of a token stays abstract: only PyJWT looks into it
pub record Jwt (Token : Type 0) : Type 0 where
  pub encode : Payload → Token
  pub decode : ℕ → Token → Decoded

pub record Settings : Type 0 where
  pub access_token_expire_minutes : ℕ
  pub refresh_token_expire_days : ℕ

pub record Account : Type 0 where
  pub name : String
  pub password_hash : Option String

pub record TokensPair (Token : Type 0) : Type 0 where
  pub access_token : Token
  pub refresh_token : Token

unfoldable pub int_of : Subject → Result ℕ
int_of no_subject = err key_error
int_of (text s) = err value_error
int_of (number n) = ok n

unfoldable pub is_type : String → Option String → Bool
is_type wanted none = false
is_type wanted (some t) = str_eq t wanted

-- `user_by_id`, whose every error is answered as invalid credentials
abbrev pub user_or_error : ℕ → Option Account → Result (ℕ × Account)
user_or_error id none = err authentication
user_or_error id (some user) = ok (id, user)

abbrev pub user_of : List (ℕ × Account) → Result ℕ → Result (ℕ × Account)
user_of users (err e) = err authentication
user_of users (ok id) = user_or_error id (find id users)

unfoldable pub authorize_payload : List (ℕ × Account) → Decoded → Result (ℕ × Account)
unfolding int_of is_type
authorize_payload users expired = err authentication
authorize_payload users invalid = err authentication
authorize_payload users (decoded p) =
    if is_type "access" p.token_type then user_of users (int_of p.subject) else err authentication

module _ {Token : Type 0} (jwt : Jwt Token) (settings : Settings) where
  unfoldable pub create_access_token : ℕ → ℕ → Token
  create_access_token now user_id = jwt.encode (record {
    subject = number user_id;
    token_type = some "access";
    exp = some (now + settings.access_token_expire_minutes * 60);
  })

  unfoldable pub create_refresh_token : ℕ → ℕ → Token
  create_refresh_token now user_id = jwt.encode (record {
    subject = number user_id;
    token_type = some "refresh";
    exp = some (now + settings.refresh_token_expire_days * 86400);
  })

  unfoldable pub authorize : ℕ → List (ℕ × Account) → Option Token → Result (ℕ × Account)
  unfolding authorize_payload
  authorize now users none = err authentication
  authorize now users (some token) = authorize_payload users (jwt.decode now token)

  abbrev pub is_past : ℕ → Option ℕ → Bool
  is_past now none = false
  is_past now (some t) = not (t == 0) && ltb t now

  abbrev pub renewed : ℕ → Token → Result ℕ → Result (TokensPair Token)
  renewed now token (err e) = err e
  renewed now token (ok user_id) =
      ok (record { access_token = create_access_token now user_id; refresh_token = token })

  unfoldable pub refresh_payload : ℕ → Token → Decoded → Result (TokensPair Token)
  unfolding int_of is_type create_access_token
  refresh_payload now token expired = err authentication
  refresh_payload now token invalid = err authentication
  refresh_payload now token (decoded p) =
      if is_past now p.exp
      then err authentication
      else if is_type "refresh" p.token_type
      then renewed now token (int_of p.subject)
      else err authentication

  unfoldable pub refresh_tokens : ℕ → Token → Result (TokensPair Token)
  unfolding refresh_payload
  refresh_tokens now token = refresh_payload now token (jwt.decode now token)

  -- `user_for_auth`: names are unique
  unfoldable pub user_for_auth : String → List (ℕ × Account) → Option (ℕ × Account)
  user_for_auth username [] = none
  user_for_auth username ((id, user) ∷ users) =
      if str_eq user.name username then some (id, user) else user_for_auth username users

  module _ (verify : String → String → Bool) where
    abbrev pub verified : String → Option String → Bool
    verified password none = false
    verified password (some hash) = not (str_eq hash "") && verify password hash

    abbrev pub login : ℕ → String → Option (ℕ × Account) → Result (TokensPair Token)
    login now password none = err authentication
    login now password (some (id, user)) =
        if verified password user.password_hash
        then ok (record {
          access_token = create_access_token now id;
          refresh_token = create_refresh_token now id;
        })
        else err authentication

    unfoldable pub get_tokens_pair :
        ℕ → String → String → List (ℕ × Account) → Result (TokensPair Token)
    unfolding user_for_auth create_access_token create_refresh_token
    get_tokens_pair now username password users = login now password (user_for_auth username users)
