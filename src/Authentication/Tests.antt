-- ===== src/Authentication/Tests.antt =====
-- A token that is its own payload, and one account.
use family_assistant_kernel.Prelude.{
  ℕ, ◌≡◌, refl, Bool, true, false, ltb, Option, none, some, List, [], ◌∷◌, arith,
}
use family_assistant_kernel.Exec.{ok, err, authentication}
use family_assistant_kernel.Storage.{find}
use family_assistant_kernel.Authentication.{
  Payload, Decoded, expired, decoded, Jwt, Settings, Account, authorize, refresh_tokens,
  create_access_token, create_refresh_token,
}
use family_assistant_kernel.Authentication.Tokens.{
  ReadsBack, authorize-create_access_token, authorize-create_refresh_token,
  refresh_tokens-create_refresh_token,
}

abbrev read : Payload → Bool → Decoded
read p true = decoded p
read p false = expired

abbrev is_fresh : ℕ → Option ℕ → Bool
is_fresh now none = true
is_fresh now (some t) = ltb now t

abbrev plain : Jwt Payload
plain = record { encode = λ p. p; decode = λ now p. read p (is_fresh now p.exp) }

plain-ReadsBack : ReadsBack plain
plain-ReadsBack = record {
  reads = λ now t p e fresh. rw e (ground (arith, fresh));
  expires = λ now t p e old. rw e (ground (arith, old));
}

abbrev settings : Settings
settings = record { access_token_expire_minutes = 15; refresh_token_expire_days = 7 }

abbrev accounts : List (ℕ × Account)
accounts = (1, record { name = "ann"; password_hash = some "hash" }) ∷ []

authorize-create_access_token_example :
    authorize plain settings 500 accounts (some (create_access_token plain settings 100 1))
    ≡ ok (1, record { name = "ann"; password_hash = some "hash" })
unfolding find
authorize-create_access_token_example =
    authorize-create_access_token plain settings 100 500 1 accounts
      (record { name = "ann"; password_hash = some "hash" }) plain-ReadsBack refl (omega arith)

authorize-create_refresh_token_example :
    authorize plain settings 500 accounts (some (create_refresh_token plain settings 100 1))
    ≡ err authentication
authorize-create_refresh_token_example =
    authorize-create_refresh_token plain settings 100 500 1 accounts plain-ReadsBack

refresh_tokens-create_refresh_token_example :
    refresh_tokens plain settings 500 (create_refresh_token plain settings 100 1)
    ≡ ok (record {
      access_token = create_access_token plain settings 500 1;
      refresh_token = create_refresh_token plain settings 100 1;
    })
refresh_tokens-create_refresh_token_example =
    refresh_tokens-create_refresh_token plain settings 100 500 1 plain-ReadsBack (omega arith)
