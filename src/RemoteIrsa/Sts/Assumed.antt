-- ===== src/RemoteIrsa/Sts/Assumed.antt =====
-- What AssumeRoleWithWebIdentity was asked, and what it answered, where credentials are returned.
use aws_workload_identity_op.Prelude.{
  ℕ, ◌≡◌, String, ◌&&◌, Option, none, some, arith, refl, Bool-cases, inl, inr, ltb, ◌/◌,
}
use aws_workload_identity_op.Prelude.Int.{ℤ, pos, pos_part, ltb_ℤ}
use aws_workload_identity_op.Prelude.Int32.{max_int32}
use aws_workload_identity_op.RemoteIrsa.Errors.{success}
use aws_workload_identity_op.RemoteIrsa.Options.{
  StsCredentials, StsOutput, StsInput, StsAnswer, no_output, output, sts_error, StsClient, second,
}
use aws_workload_identity_op.RemoteIrsa.Sts.{
  Credentials, complete, credentials_of, answer_of, sts_input, assume_role_with_web_identity,
}

-- The four values of an answer that the credentials are made of.
pub record IsGiven (given : StsCredentials) (c : Credentials) : Type 0 where
  pub key : given.access_key_id ≡ some c.access_key_id
  pub secret : given.secret_access_key ≡ some c.secret_access_key
  pub session : given.session_token ≡ some c.session_token
  pub expiry : given.expiration ≡ some c.expires

-- The client was asked for the role with the token, and gave the credentials.
pub record IsAssumed (client : StsClient) (role_arn token session_name : String) (c : Credentials)
    : Type 0 where
  pub input : StsInput
  pub asked_role : input.role_arn ≡ role_arn
  pub asked_token : input.web_identity_token ≡ token
  pub asked_session : input.role_session_name ≡ session_name
  pub answer : StsOutput
  pub answered : client input ≡ output answer
  pub given : StsCredentials
  pub has_credentials : answer.credentials ≡ some given
  pub gives : IsGiven given c

module _ (c : Credentials) where
  complete-success :
      (account : String) (key secret token : Option String) (time : Option ℕ)
      → complete account key secret token time ≡ success c
      → (key ≡ some c.access_key_id)
        × (secret ≡ some c.secret_access_key)
        × (token ≡ some c.session_token)
        × (time ≡ some c.expires)
  unfolding complete
  complete-success account key secret token time h = ground arith

  credentials_of-IsGiven :
      (account : String) (o : Option StsCredentials)
      → credentials_of account o ≡ success c
      → (given : StsCredentials) × (o ≡ some given) × IsGiven given c
  unfolding credentials_of
  credentials_of-IsGiven account none h = ground arith
  credentials_of-IsGiven account (some g) h =
      let (key, secret, token, time) =
        complete-success account g.access_key_id g.secret_access_key g.session_token g.expiration
          h in
      (g, refl, record { key = key; secret = secret; session = token; expiry = time })

  answer_of-IsGiven :
      (parse : String → Option String) (a : StsAnswer)
      → answer_of parse a ≡ success c
      → (o : StsOutput) × (given : StsCredentials) × (a ≡ output o)
        × (o.credentials ≡ some given)
        × IsGiven given c
  unfolding answer_of
  answer_of-IsGiven parse (sts_error e) h = ground arith
  answer_of-IsGiven parse no_output h = ground arith
  answer_of-IsGiven parse (output o) h =
      let (given, found, gives) = credentials_of-IsGiven _ o.credentials h in
      (o, given, refl, found, gives)

module _ (parse : String → Option String) (client : StsClient)
    (role_arn token session_name : String) (duration : ℤ) (c : Credentials) where
  asked-IsAssumed :
      answer_of parse (client (sts_input role_arn token session_name duration)) ≡ success c
      → IsAssumed client role_arn token session_name c
  unfolding sts_input
  asked-IsAssumed h =
      let (o, given, answered, found, gives) = answer_of-IsGiven c parse _ h in
      record {
        input = sts_input role_arn token session_name duration;
        asked_role = refl;
        asked_token = refl;
        asked_session = refl;
        answer = o;
        answered = answered;
        given = given;
        has_credentials = found;
        gives = gives;
      }

  pub assume_role_with_web_identity-IsAssumed :
      assume_role_with_web_identity parse client role_arn token session_name duration ≡ success c
      → IsAssumed client role_arn token session_name c
  unfolding assume_role_with_web_identity
  assume_role_with_web_identity-IsAssumed h =
      elim (Bool-cases (ltb_ℤ (pos 0) duration && ltb max_int32 (pos_part duration / second))) [
        | inl long ↦ ground arith
        | inr short ↦ asked-IsAssumed (simp short at h)
      ]
