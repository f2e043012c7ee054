-- ===== src/Iam.antt =====
-- src/iam: the claims of a token, and the two guards that every request passes. The token library's
-- verification and the metadata of a route come from outside, and are arguments.
pub mod Admission
pub mod Headers
use program_capacity_invoice.Prelude.{
  ℕ, ◌+◌, ◌==◌, leb, Bool, true, false, not, ◌&&◌, Option, none, some, List, [], ◌∷◌, if◌then◌else◌,
  Text, split_on, text_eq, codes, is_space, has, filter, is_none, Json, Items, string, array,
  object, nil, cons,
}

-- principal.ts
pub data Programs : Type 0 where
  every_program : Programs
  these_programs : List Text → Programs

pub record Principal : Type 0 where
  pub subject : Text
  pub scopes : List Text
  pub programs : Programs

abbrev pub has_program : Text → Programs → Bool
has_program program_id every_program = true
has_program program_id (these_programs ids) = has program_id ids

-- `canAccessProgram`
unfoldable pub can_access_program : Principal → Text → Bool
can_access_program principal program_id = has_program program_id principal.programs

-- token-verifier.ts: `payload` of `jwtVerify`
pub record JwtPayload : Type 0 where
  pub sub : Text
  pub scope : Option Json
  pub programs : Option Json

abbrev pub is_empty_text : Text → Bool
is_empty_text [] = true
is_empty_text (c ∷ s) = false

-- `parseScopes`; `none` is the `InvalidTokenError` that it throws
unfoldable pub parse_scopes : Option Json → Option (List Text)
parse_scopes none = some []
parse_scopes (some (string s)) =
    some (filter (λ scope. not (is_empty_text scope)) (split_on b' ' s))
parse_scopes (some _) = none

-- the strings of an array of strings
abbrev pub and_string : Json → Option (List Text) → Option (List Text)
and_string (string s) (some texts) = some (s ∷ texts)
and_string _ _ = none

unfoldable pub all_strings : Items → Option (List Text)
all_strings nil = some []
all_strings (cons value rest) = and_string value (all_strings rest)

abbrev pub listed_programs : Option (List Text) → Option Programs
listed_programs none = none
listed_programs (some ids) = some (these_programs ids)

-- `parsePrograms`
unfoldable pub parse_programs : Option Json → Option Programs
parse_programs none = some (these_programs [])
parse_programs (some (string s)) = if text_eq s (codes "*") then some every_program else none
parse_programs (some (array items)) = listed_programs (all_strings items)
parse_programs (some _) = none

abbrev pub new_principal : Text → Option (List Text) → Option Programs → Option Principal
new_principal subject (some scopes) (some programs) =
    some (record { subject = subject; scopes = scopes; programs = programs })
new_principal subject _ _ = none

-- What `TokenVerifier.verify` does: a principal, an `InvalidTokenError`, or another error.
pub data Verification : Type 0 where
  verified : Principal → Verification
  invalid_token broken : Verification

abbrev pub verified_or_invalid : Option Principal → Verification
verified_or_invalid none = invalid_token
verified_or_invalid (some principal) = verified principal

-- `TokenVerifier.verify`: any error of the library is an invalid token
unfoldable pub verify_token : (Text → Option JwtPayload) → Text → Verification
verify_token jwt_verify token = elim (jwt_verify token) [
  | none ↦ invalid_token
  | some payload ↦
      verified_or_invalid
        (new_principal payload.sub (parse_scopes payload.scope) (parse_programs payload.programs))
]

-- guards.ts: what a guard throws
pub data Refusal : Type 0 where
  token_required token_invalid : Refusal
  verifier_broken no_scopes_declared : Refusal
  scopes_missing : List Text → Refusal
  program_forbidden : Text → Refusal

-- What the guards read of a request: the route's metadata, the header (`none` also for several), and
-- the `programId` of the path.
pub record HttpRequest : Type 0 where
  pub is_public : Bool
  pub required_scopes : Option (List Text)
  pub authorization : Option Text
  pub program_id : Option Text

-- `bearerToken`: /^Bearer\s+(\S+)\s*$/i
abbrev pub lower_unit : ℕ → ℕ
lower_unit c = if leb b'A' c && leb c b'Z' then c + 32 else c

unfoldable pub strip_word : Text → Text → Option Text
strip_word [] s = some s
strip_word (w ∷ word) [] = none
strip_word (w ∷ word) (c ∷ s) =
    let rest = strip_word word s in if lower_unit c == w then rest else none

-- the white space at the front, and whether there was some
unfoldable pub skip_spaces : Text → Text
skip_spaces [] = []
skip_spaces (c ∷ s) = let rest = skip_spaces s in if is_space c then rest else c ∷ s

abbrev pub starts_with_space : Text → Bool
starts_with_space [] = false
starts_with_space (c ∷ s) = is_space c

-- the units up to the first white space, and the rest
abbrev pub span_cons : ℕ → Text × Text → Text × Text
span_cons c (word, rest) = (c ∷ word, rest)

unfoldable pub span_word : Text → Text × Text
span_word [] = ([], [])
span_word (c ∷ s) = let split = span_word s in if is_space c then ([], c ∷ s) else span_cons c split

abbrev pub whole_token : Text × Text → Option Text
whole_token (word, rest) =
    if not (is_empty_text word) && is_empty_text (skip_spaces rest) then some word else none

unfoldable pub token_after : Option Text → Option Text
token_after none = none
token_after (some rest) =
    if starts_with_space rest then whole_token (span_word (skip_spaces rest)) else none

unfoldable pub bearer_token : Option Text → Option Text
bearer_token none = none
bearer_token (some header) = token_after (strip_word (codes "bearer") header)

pub data Access : Type 0 where
  admitted : Option Principal → Access
  refused : Refusal → Access

-- `AuthenticationGuard.canActivate`, with the principal that it leaves on the request
abbrev pub accept : Verification → Access
accept (verified principal) = admitted (some principal)
accept invalid_token = refused token_invalid
accept broken = refused verifier_broken

unfoldable pub authenticate_token : (Text → Verification) → Option Text → Access
authenticate_token verify none = refused token_required
authenticate_token verify (some token) = accept (verify token)

unfoldable pub authenticate : (Text → Verification) → HttpRequest → Access
authenticate verify request =
    if request.is_public
    then admitted none
    else authenticate_token verify (bearer_token request.authorization)

-- `AuthorizationGuard.canActivate`
abbrev pub check_program : Principal → Option Text → Access
check_program principal none = admitted (some principal)
check_program principal (some program_id) =
    if not (can_access_program principal program_id)
    then refused (program_forbidden program_id)
    else admitted (some principal)

abbrev pub missing_scopes : Principal → List Text → List Text
missing_scopes principal required = filter (λ scope. not (has scope principal.scopes)) required

abbrev pub check_missing : Principal → List Text → Option Text → Access
check_missing principal [] program_id = check_program principal program_id
check_missing principal (scope ∷ missing) program_id = refused (scopes_missing (scope ∷ missing))

unfoldable pub check_scopes : Principal → Option (List Text) → Option Text → Access
check_scopes principal none program_id = refused no_scopes_declared
check_scopes principal (some required) program_id =
    check_missing principal (missing_scopes principal required) program_id

unfoldable pub authorize_principal : HttpRequest → Option Principal → Access
authorize_principal request none = refused token_required
authorize_principal request (some principal) =
    check_scopes principal request.required_scopes request.program_id

unfoldable pub authorize : HttpRequest → Option Principal → Access
authorize request principal =
    if request.is_public then admitted principal else authorize_principal request principal

-- iam.module.ts: the guards run in the order of their registration
abbrev pub then_authorize : HttpRequest → Access → Access
then_authorize request (admitted principal) = authorize request principal
then_authorize request (refused why) = refused why

unfoldable pub admit : (Text → Verification) → HttpRequest → Access
admit verify request = then_authorize request (authenticate verify request)
