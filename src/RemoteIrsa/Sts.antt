-- ===== src/RemoteIrsa/Sts.antt =====
-- pkg/remoteirsa/sts.go, and classifyTokenRequestError of tokenrequest.go.
pub mod Assumed
use aws_workload_identity_op.Prelude.{
  ℕ, String, ◌==◌, Bool, true, ◌||◌, ◌&&◌, if◌then◌else◌, Option, none, some, ◌/◌, ltb,
}
use aws_workload_identity_op.Prelude.Int.{ℤ, pos, pos_part, ltb_ℤ}
use aws_workload_identity_op.Prelude.Int32.{max_int32}
use aws_workload_identity_op.Api.Errors.{Failure}
use aws_workload_identity_op.RemoteIrsa.Errors
use aws_workload_identity_op.RemoteIrsa.Errors.{
  ErrorReason, no_context, IrsaError, Attempt, success, failed, new_error,
}
use aws_workload_identity_op.RemoteIrsa.Options.{
  StsCredentials, StsInput, StsError, StsAnswer, no_output, output, sts_error, StsClient, second,
}

-- aws.Credentials
pub record Credentials : Type 0 where
  pub access_key_id : String
  pub secret_access_key : String
  pub session_token : String
  pub source : String
  pub can_expire : Bool
  pub expires : ℕ
  pub account_id : String

reason_of_code : Option String → ErrorReason
reason_of_code none = Errors.sts_assume_role_with_web_identity
reason_of_code (some code) =
    if (code == "AccessDenied") || (code == "AccessDeniedException")
    then Errors.sts_access_denied
    else if (code == "ExpiredToken")
        || ((code == "ExpiredTokenException")
            || ((code == "InvalidIdentityToken")
                || ((code == "InvalidIdentityTokenException") || (code == "IDPRejectedClaim"))))
    then Errors.expired_or_invalid_token
    else Errors.sts_assume_role_with_web_identity

message_of_reason : ErrorReason → String
message_of_reason Errors.sts_access_denied = "STS AssumeRoleWithWebIdentity was denied"
message_of_reason Errors.expired_or_invalid_token = "STS rejected the web identity token"
message_of_reason _ = "STS AssumeRoleWithWebIdentity failed"

-- classifySTSError
unfoldable pub classify_sts_error : StsError → IrsaError
unfolding reason_of_code message_of_reason
classify_sts_error e =
    new_error (reason_of_code e.code) (message_of_reason (reason_of_code e.code)) (some e.failure)
      no_context

-- classifyTokenRequestError
unfoldable pub classify_token_request_error : Failure → IrsaError
classify_token_request_error e =
    if e.forbidden
    then new_error Errors.remote_token_request_forbidden
        "remote ServiceAccount TokenRequest was forbidden" (some e) no_context
    else new_error Errors.remote_token_request_failed "remote ServiceAccount TokenRequest failed"
        (some e) no_context

account_or_empty : Option String → String
account_or_empty none = ""
account_or_empty (some account) = account

-- accountIDFromAssumedRoleUser. The parameter is arn.Parse of the AWS SDK, as the account that it finds.
unfoldable pub account_id_of : (String → Option String) → Option String → String
unfolding account_or_empty
account_id_of parse none = ""
account_id_of parse (some arn) = account_or_empty (parse arn)

unavailable : String → Attempt Credentials
unavailable message = failed (new_error Errors.sts_credentials_unavailable message none no_context)

complete : String → Option String → Option String → Option String → Option ℕ → Attempt Credentials
unfolding unavailable
complete account (some key) (some secret) (some token) (some time) = success (record {
  access_key_id = key;
  secret_access_key = secret;
  session_token = token;
  source = "RemoteIRSAAssumeRoleWithWebIdentity";
  can_expire = true;
  expires = time;
  account_id = account;
})
complete account _ _ _ _ = unavailable "STS response included incomplete credentials"

credentials_of : String → Option StsCredentials → Attempt Credentials
unfolding complete unavailable
credentials_of account none = unavailable "STS response did not include credentials"
credentials_of account (some c) =
    complete account c.access_key_id c.secret_access_key c.session_token c.expiration

answer_of : (String → Option String) → StsAnswer → Attempt Credentials
unfolding credentials_of classify_sts_error account_id_of unavailable
answer_of parse (sts_error e) = failed (classify_sts_error e)
answer_of parse no_output = unavailable "STS response did not include credentials"
answer_of parse (output o) = credentials_of (account_id_of parse o.assumed_role_arn) o.credentials

-- The input of the call; a duration is rounded down to seconds.
unfoldable pub sts_input : String → String → String → ℤ → StsInput
sts_input role_arn token session_name duration = record {
  role_arn = role_arn;
  role_session_name = session_name;
  web_identity_token = token;
  duration_seconds = if ltb_ℤ (pos 0) duration then some (pos_part duration / second) else none;
}

-- assumeRoleWithWebIdentity
unfoldable pub assume_role_with_web_identity :
    (String → Option String) → StsClient → String → String → String → ℤ → Attempt Credentials
unfolding sts_input answer_of
assume_role_with_web_identity parse client role_arn token session_name duration =
    if ltb_ℤ (pos 0) duration && ltb max_int32 (pos_part duration / second)
    then failed (
        new_error Errors.invalid_options "SessionDuration is too large for STS DurationSeconds" none
          no_context)
    else answer_of parse (client (sts_input role_arn token session_name duration))
