-- ===== src/Iam/Admission.antt =====
-- Which requests the two guards admit, and which headers carry a token.
use program_capacity_invoice.Prelude.{
  ◌≡◌, ◌≢◌, ◌↔◌, inl, inr, true, false, Option, none, some, List, [], ◌∷◌, Text, refl, sym, ◌∙◌, ap,
  subst, Bool-cases, has, Among, has-Among, Among-has,
}
use program_capacity_invoice.Iam.{
  Principal, Programs, every_program, these_programs, can_access_program, Verification, verified,
  invalid_token, broken, HttpRequest, bearer_token, Refusal, admitted, refused, has_program,
  authenticate_token, authenticate, check_program, missing_scopes, check_missing, check_scopes,
  authorize_principal, authorize, admit, accept, then_authorize,
}

abbrev pub MayAct : Programs → Text → Type 0
MayAct every_program id = Unit {0}
MayAct (these_programs ids) id = Among id ids

abbrev pub HoldsAll : List Text → Principal → Type 0
HoldsAll [] p = Unit {0}
HoldsAll (scope ∷ required) p = Among scope p.scopes × HoldsAll required p

abbrev pub MayReach : Principal → Option Text → Type 0
MayReach p none = Unit {0}
MayReach p (some id) = MayAct p.programs id

-- Whom a route that is not public lets in: the principal of a valid token, who holds every scope that
-- the route declares and may act on the program of the path.
pub record IsEntitled (verify : Text → Verification) (request : HttpRequest) (p : Principal)
    : Type 0 where
  pub token : Text
  pub sent : bearer_token request.authorization ≡ some token
  pub valid : verify token ≡ verified p
  pub required : List Text
  pub declared : request.required_scopes ≡ some required
  pub holds : HoldsAll required p
  pub reaches : MayReach p request.program_id

missing-HoldsAll :
    (required : List Text) (p : Principal) → missing_scopes p required ≡ [] → HoldsAll required p
missing-HoldsAll [] p h = tt
missing-HoldsAll (scope ∷ required) p h = elim (Bool-cases (has scope p.scopes)) [
  | inl e ↦ (has-Among scope p.scopes e, missing-HoldsAll required p (rw e at h))
  | inr e ↦ absurd (not_cons (rw e at h))
]
  where
    not_cons : scope ∷ missing_scopes p required ≢ []
    not_cons e = cc

HoldsAll-missing :
    (required : List Text) (p : Principal) → HoldsAll required p → missing_scopes p required ≡ []
HoldsAll-missing [] p h = refl
HoldsAll-missing (scope ∷ required) p h =
    rw (Among-has scope p.scopes h.0) (HoldsAll-missing required p h.1)

access-MayAct : (p : Principal) (id : Text) → can_access_program p id ≡ true → MayAct p.programs id
unfolding can_access_program
access-MayAct p id h = go p.programs h
  where
    go : (programs : Programs) → has_program id programs ≡ true → MayAct programs id
    go every_program e = tt
    go (these_programs ids) e = has-Among id ids e

MayAct-access : (p : Principal) (id : Text) → MayAct p.programs id → can_access_program p id ≡ true
unfolding can_access_program
MayAct-access p id h = go p.programs h
  where
    go : (programs : Programs) → MayAct programs id → has_program id programs ≡ true
    go every_program m = refl
    go (these_programs ids) m = Among-has id ids m

refused_ne : (why : Refusal) (q : Principal) → refused why ≢ admitted (some q)
refused_ne why q e = cc

-- What `AuthorizationGuard` lets through is the principal that it was given.
check_program-MayReach :
    (p q : Principal) (id : Option Text)
    → check_program p id ≡ admitted (some q)
    → (p ≡ q) × MayReach p id
check_program-MayReach p q none h = (cc, tt)
check_program-MayReach p q (some id) h = elim (Bool-cases (can_access_program p id)) [
  | inl e ↦ let h' : admitted (some p) ≡ admitted (some q) = rw e at h in (cc, access-MayAct p id e)
  | inr e ↦ absurd (refused_ne _ q (rw e at h))
]

MayReach-check_program :
    (p : Principal) (id : Option Text) → MayReach p id → check_program p id ≡ admitted (some p)
MayReach-check_program p none h = refl
MayReach-check_program p (some id) h = rw (MayAct-access p id h) refl

check_missing-none :
    (p q : Principal) (missing : List Text) (id : Option Text)
    → check_missing p missing id ≡ admitted (some q)
    → (missing ≡ []) × (p ≡ q) × MayReach p id
check_missing-none p q [] id h =
    let (same, reach) = check_program-MayReach p q id h in (refl, same, reach)
check_missing-none p q (scope ∷ missing) id h = cc

-- A request to a route that is not public.
module _ (verify : Text → Verification) (request : HttpRequest)
    (private : request.is_public ≡ false) where
  abbrev AllowsScopes : Principal → Option (List Text) → Type 0
  AllowsScopes q none = ⊥
  AllowsScopes q (some required) = HoldsAll required q × MayReach q request.program_id

  scopes-AllowsScopes :
      (p q : Principal) (required : Option (List Text))
      → check_scopes p required request.program_id ≡ admitted (some q)
      → (p ≡ q) × AllowsScopes p required
  unfolding check_scopes
  scopes-AllowsScopes p q none h = absurd (refused_ne _ q h)
  scopes-AllowsScopes p q (some required) h =
      let (none_missing, same, reach) =
        check_missing-none p q (missing_scopes p required) request.program_id h in
      (same, (missing-HoldsAll required p none_missing, reach))

  AllowsScopes-scopes :
      (p : Principal) (required : Option (List Text))
      → AllowsScopes p required
      → check_scopes p required request.program_id ≡ admitted (some p)
  unfolding check_scopes
  AllowsScopes-scopes p none h = absurd h
  AllowsScopes-scopes p (some required) h =
      rw (HoldsAll-missing required p h.0) (MayReach-check_program p request.program_id h.1)

  authorize-run : (p : Option Principal) → authorize request p ≡ authorize_principal request p
  unfolding authorize
  authorize-run p = rw private refl

  accepted-AllowsScopes :
      (v : Verification) (q : Principal)
      → then_authorize request (accept v) ≡ admitted (some q)
      → (v ≡ verified q) × AllowsScopes q request.required_scopes
  unfolding authorize_principal
  accepted-AllowsScopes (verified p) q h =
      let (same, allows) =
        scopes-AllowsScopes p q request.required_scopes (sym (authorize-run (some p)) ∙ h) in
      (ap verified same, subst (λ r. AllowsScopes r request.required_scopes) same allows)
  accepted-AllowsScopes invalid_token q h = absurd (refused_ne _ q h)
  accepted-AllowsScopes broken q h = absurd (refused_ne _ q h)

  admit-run :
      admit verify request
      ≡ then_authorize request (authenticate_token verify (bearer_token request.authorization))
  unfolding admit authenticate
  admit-run = rw private refl

  sent-IsEntitled :
      (sent : Option Text) (q : Principal)
      → bearer_token request.authorization ≡ sent
      → then_authorize request (authenticate_token verify sent) ≡ admitted (some q)
      → IsEntitled verify request q
  unfolding authenticate_token
  sent-IsEntitled none q e h = absurd (refused_ne _ q h)
  sent-IsEntitled (some token) q e h =
      let (valid, allows) = accepted-AllowsScopes (verify token) q h in
      entitled token q e valid request.required_scopes refl allows
    where
      entitled :
          (token : Text) (q : Principal)
          → bearer_token request.authorization ≡ some token
          → verify token ≡ verified q
          → (required : Option (List Text)) → request.required_scopes ≡ required
          → AllowsScopes q required
          → IsEntitled verify request q
      entitled token q e valid none declared allows = absurd allows
      entitled token q e valid (some required) declared allows = record {
        token = token;
        sent = e;
        valid = valid;
        required = required;
        declared = declared;
        holds = allows.0;
        reaches = allows.1;
      }

  -- For a request to a route that is not public: the two guards, authentication and then
  -- authorization, let it through with a principal q if and only if its header carries a
  -- bearer token that verifies to q, the route declares its scopes, q has every one of them,
  -- and the path has no program or one that q may act on.
  pub admitted_iff_IsEntitled :
      (q : Principal) → (admit verify request ≡ admitted (some q)) ↔ IsEntitled verify request q
  unfolding authenticate_token authorize_principal
  admitted_iff_IsEntitled q = (
    λ h. sent-IsEntitled (bearer_token request.authorization) q refl (sym admit-run ∙ h),
    λ h.
        admit-run
        ∙ rw h.sent (
            rw h.valid (
              authorize-run (some q)
              ∙ AllowsScopes-scopes q request.required_scopes
                  (subst (AllowsScopes q) (sym h.declared) (h.holds, h.reaches)))),
  )
