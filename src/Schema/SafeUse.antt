-- ===== src/Schema/SafeUse.antt =====
-- `safeUseClaimsValid` of backend/src/launch-contract/schema.ts.
use launch_proof.Shared.{
  Bool, not, ◌&&◌, ◌||◌, ◌==◌, nat_eq, Text, to_lower_case, trim, List, [], ◌∷◌, ◌++◌,
}
use launch_proof.Patterns.{
  Regex, empty, boundary, one, seq, either, many, found, replace_all, optional, literal, spaces,
  found_from, replace_from,
}

-- `claims.join(" ")`
abbrev pub join_claims : List Text → Text
join_claims [] = []
join_claims (c ∷ []) = c
join_claims (c ∷ d ∷ rest) = c ++ (32 ∷ join_claims (d ∷ rest))

-- `\bread[- ]only\b`
abbrev pub read_only_claim : Regex
read_only_claim =
    seq boundary
      (seq (literal "read") (seq (one (λ c. c == b'-' || c == 32)) (seq (literal "only") boundary)))

-- `\b(?:synthetic|sample)\b`
abbrev pub synthetic_claim : Regex
synthetic_claim = seq boundary (seq (either (literal "synthetic") (literal "sample")) boundary)

-- `(?:credentials?|account|cookies?)`
abbrev pub identity_word : Regex
identity_word =
    either (seq (literal "credential") (optional (literal "s")))
      (either (literal "account") (seq (literal "cookie") (optional (literal "s"))))

-- `\bno\s+`
abbrev pub no_claim : Regex
no_claim = seq boundary (seq (literal "no") spaces)

-- `\bno\s+(?:credentials?|account|cookies?)\b`
abbrev pub no_identity_claim : Regex
no_identity_claim = seq no_claim (seq identity_word boundary)

abbrev pub tool_word : Regex
tool_word = optional (seq (literal "tool") spaces)

-- `\bno\s+(?:external\s+)?(?:tool\s+)?side effects?`
abbrev pub no_effects : Regex
no_effects = seq no_claim (
    seq (optional (seq (literal "external") spaces))
      (seq tool_word (seq (literal "side effect") (optional (literal "s")))))

-- `\bno\s+(?:tool\s+)?writes?\b`
abbrev pub no_writes : Regex
no_writes =
    seq no_claim (seq tool_word (seq (literal "write") (seq (optional (literal "s")) boundary)))

-- `(?:\s+or\s+(?:credentials?|account|cookies?))*`
abbrev pub or_identities : Regex
or_identities = many (seq spaces (seq (literal "or") (seq spaces identity_word)))

-- `(?:\s+beyond\s+the\s+declared\s+x402\s+payment)?`
abbrev pub beyond_payment : Regex
beyond_payment = optional (
    seq spaces (
      seq (literal "beyond") (
        seq spaces (
          seq (literal "the") (
            seq spaces (
              seq (literal "declared")
                (seq spaces (seq (literal "x402") (seq spaces (literal "payment"))))))))))

abbrev pub any_of : List Regex → Regex
any_of [] = empty
any_of (r ∷ []) = r
any_of (r ∷ s ∷ rest) = either r (any_of (s ∷ rest))

abbrev pub forbidden_claim : Regex
forbidden_claim = seq boundary (
    seq
      (any_of (
        literal "write"
        ∷ literal "writes"
        ∷ literal "modify"
        ∷ literal "modifies"
        ∷ literal "delete"
        ∷ literal "deletes"
        ∷ literal "upload"
        ∷ literal "uploads"
        ∷ literal "credential"
        ∷ literal "credentials"
        ∷ literal "cookie"
        ∷ literal "cookies"
        ∷ literal "account"
        ∷ seq (literal "wallet") (seq spaces (literal "sign"))
        ∷ seq (literal "production") (seq spaces (literal "record"))
        ∷ []))
      boundary)

-- `joined`
abbrev pub normal_claims : List Text → Text
normal_claims claims = trim (replace_all spaces (32 ∷ []) (to_lower_case (join_claims claims)))

abbrev pub without_negative_claims : Text → Text
without_negative_claims joined = replace_all read_only_claim [] (
    replace_all no_writes [] (
      replace_all (seq no_effects beyond_payment) []
        (replace_all (seq no_claim (seq identity_word or_identities)) [] joined)))

abbrev pub claims_hold : Text → Bool
claims_hold joined =
    found read_only_claim joined
    && (found synthetic_claim joined
        && (found no_identity_claim joined
            && (found (either (seq no_effects boundary) no_writes) joined
                && not (found forbidden_claim (without_negative_claims joined)))))

unfoldable pub safe_use_claims_valid : List Text → Bool
unfolding found_from replace_from
safe_use_claims_valid claims = claims_hold (normal_claims claims)
