-- ===== src/Authentication/Tokens.antt =====
-- Tokens that the program wrote, read back by the program.
use family_assistant_kernel.Prelude.{
  ℕ, ◌+◌, ◌*◌, ◌<◌, ◌≤◌, ◌≡◌, refl, false, ltb, String, some, List, Bool-cases, inl, inr, arith,
}
use family_assistant_kernel.Exec.{ok, err, authentication}
use family_assistant_kernel.Storage.{find}
use family_assistant_kernel.Authentication.{
  Payload, number, expired, decoded, Jwt, Settings, Account, authorize, authorize_payload,
  refresh_payload, refresh_tokens, create_access_token, create_refresh_token, int_of, is_type,
  is_past,
}

-- PyJWT reads back what it wrote with the same key, until the time of `exp` is reached
pub record ReadsBack {Token : Type 0} (jwt : Jwt Token) : Type 0 where
  pub reads :
      (now t : ℕ) (p : Payload)
      → p.exp ≡ some t
      → now < t
      → jwt.decode now (jwt.encode p) ≡ decoded p
  pub expires :
      (now t : ℕ) (p : Payload) → p.exp ≡ some t → t ≤ now → jwt.decode now (jwt.encode p) ≡ expired

abbrev made : String → ℕ → ℕ → Payload
made kind t id = record { subject = number id; token_type = some kind; exp = some t }

module _ {Token : Type 0} (jwt : Jwt Token) (settings : Settings) where
  -- An access token admits its user for the minutes of the settings, counted from when it was made.
  pub authorize-create_access_token :
      (now later id : ℕ) (users : List (ℕ × Account)) (user : Account)
      → ReadsBack jwt
      → find id users ≡ some user
      → later < now + settings.access_token_expire_minutes * 60
      → authorize jwt settings later users (some (create_access_token jwt settings now id))
        ≡ ok (id, user)
  unfolding authorize create_access_token authorize_payload is_type int_of
  authorize-create_access_token now later id users user h known fresh =
      let t : ℕ = now + settings.access_token_expire_minutes * 60 in
      rw (h.reads later t (made "access" t id) refl fresh) (rw known refl)

  -- A refresh token does not admit anybody, whenever it is used.
  pub authorize-create_refresh_token :
      (now later id : ℕ) (users : List (ℕ × Account))
      → ReadsBack jwt
      → authorize jwt settings later users (some (create_refresh_token jwt settings now id))
        ≡ err authentication
  unfolding authorize create_refresh_token authorize_payload is_type
  authorize-create_refresh_token now later id users h =
      let t : ℕ = now + settings.refresh_token_expire_days * 86400 in
      elim (Bool-cases (ltb later t)) [
        | inl fresh ↦ rw (h.reads later t (made "refresh" t id) refl (ground (arith, fresh))) refl
        | inr old ↦ rw (h.expires later t (made "refresh" t id) refl (ground (arith, old))) refl
      ]

  not_past : (later t : ℕ) → later < t → is_past jwt settings later (some t) ≡ false
  not_past later t fresh = ground (arith, fresh)

  -- A refresh token that has not expired is answered with itself and a new access token of its user.
  pub refresh_tokens-create_refresh_token :
      (now later id : ℕ)
      → ReadsBack jwt
      → later < now + settings.refresh_token_expire_days * 86400
      → refresh_tokens jwt settings later (create_refresh_token jwt settings now id)
        ≡ ok (record {
          access_token = create_access_token jwt settings later id;
          refresh_token = create_refresh_token jwt settings now id;
        })
  unfolding refresh_tokens create_refresh_token refresh_payload is_type int_of
  refresh_tokens-create_refresh_token now later id h fresh =
      let t : ℕ = now + settings.refresh_token_expire_days * 86400 in
      rw (h.reads later t (made "refresh" t id) refl fresh) (rw (not_past later t fresh) refl)

  -- An access token is not renewed, whenever it is used.
  pub refresh_tokens-create_access_token :
      (now later id : ℕ)
      → ReadsBack jwt
      → refresh_tokens jwt settings later (create_access_token jwt settings now id)
        ≡ err authentication
  unfolding refresh_tokens create_access_token refresh_payload is_type
  refresh_tokens-create_access_token now later id h =
      let t : ℕ = now + settings.access_token_expire_minutes * 60 in
      elim (Bool-cases (ltb later t)) [
        | inl fresh ↦
            rw (h.reads later t (made "access" t id) refl (ground (arith, fresh)))
              (rw (not_past later t (ground (arith, fresh))) refl)
        | inr old ↦ rw (h.expires later t (made "access" t id) refl (ground (arith, old))) refl
      ]
