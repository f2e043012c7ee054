-- ===== src/Examples/Iam.antt =====
-- A request that writes a reservation, with a token of its program.
use program_capacity_invoice.Prelude.{
  ◌≡◌, ◌++◌, arith, ◌↔◌, inr, false, some, [], ◌∷◌, Text, codes, split_on, is_space, text_eq,
  string, array, nil, cons, refl,
}
use program_capacity_invoice.Iam.{
  HttpRequest, JwtPayload, Principal, Verification, these_programs, verify_token, parse_scopes,
  parse_programs, all_strings, admit, authorize, authorize_principal, authenticate,
  authenticate_token, check_scopes, can_access_program, admitted, bearer_token, token_after,
  strip_word, skip_spaces, span_word,
}
use program_capacity_invoice.Iam.Headers.{IsInAnyCase, bearer_token-sent}
use program_capacity_invoice.Iam.Admission.{IsEntitled, admitted_iff_IsEntitled}

abbrev payload : JwtPayload
payload = record {
  sub = codes "seller";
  scope = some (string (codes "capacity:read reservations:write"));
  programs = some (array (cons (string (codes "program-1")) nil));
}

abbrev verify : Text → Verification
verify token = verify_token (λ t. some payload) token

abbrev seller : Principal
seller = record {
  subject = codes "seller";
  scopes = codes "capacity:read" ∷ codes "reservations:write" ∷ [];
  programs = these_programs (codes "program-1" ∷ []);
}

abbrev write_request : HttpRequest
write_request = record {
  is_public = false;
  required_scopes = some (codes "reservations:write" ∷ []);
  authorization = some (codes "bearer  abc ");
  program_id = some (codes "program-1");
}

admits_seller : admit verify write_request ≡ admitted (some seller)
unfolding is_space text_eq admit authorize authorize_principal authenticate authenticate_token
    check_scopes can_access_program bearer_token token_after strip_word skip_spaces span_word
    verify_token parse_scopes split_on parse_programs all_strings
admits_seller = refl

admitted_iff_IsEntitled_example :
    (admit verify write_request ≡ admitted (some seller)) ↔ IsEntitled verify write_request seller
admitted_iff_IsEntitled_example = admitted_iff_IsEntitled verify write_request refl seller

abbrev token : Text
token = codes "abc"

in_capitals : IsInAnyCase (codes "bearer") (codes "BEARER")
in_capitals = (inr refl, (inr refl, (inr refl, (inr refl, (inr refl, (inr refl, tt))))))

bearer_token-sent_example :
    bearer_token (some (codes "BEARER" ++ (codes "  " ++ (token ++ codes " ")))) ≡ some token
unfolding is_space
bearer_token-sent_example =
    bearer_token-sent (codes "BEARER") (codes "  ") token (codes " ") in_capitals (refl, (refl, tt))
      (omega arith) (refl, (refl, (refl, tt))) (omega arith) (refl, tt)
