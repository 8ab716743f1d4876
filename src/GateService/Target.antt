-- ===== src/GateService/Target.antt =====
-- What `normalizeLaunchContractUrl` of backend/src/launch-contract/schema.ts, `sameTarget` of
-- backend/src/passport-gate/service.ts and `normalizePublicHttpsUrl` of
-- packages/passport-gate/src/primitives.ts answer, said of the parts of a URL.
use launch_proof.Shared.{
  true, false, ◌==◌, list_eq, nat_eq, list_beq_iff, Text, text, to_lower_case, Option, none, some,
  [], ◌∷◌, ◌≡◌, ◌≢◌, ◌⊎◌, ◌↔◌, refl, sym, ap, arith,
}
use launch_proof.PassportGate.Platform.{Platform, Url}
use launch_proof.PassportGate.Types.{returns, throws, validation, invalid_launch_contract_url}
use launch_proof.PassportGate.Primitives.{
  is_empty, is_local_hostname, checked_url, normalize_public_https_url,
}
use launch_proof.GateService.Check.{
  with_default_path, normalize_launch_contract_url, same_normal, same_target,
}

is_empty_iff : (s : Text) → (is_empty s ≡ true) ↔ (s ≡ [])
is_empty_iff [] = ground arith
is_empty_iff (c ∷ s) = ground arith

path_iff : (url : Url) → ((url.pathname == text "/") ≡ true) ↔ (url.pathname ≡ text "/")
path_iff url = list_beq_iff url.pathname (text "/")

module _ (platform : Platform) where
  -- No credentials, query or fragment.
  abbrev pub IsBare : Url → Type 0
  IsBare url = (url.username ≡ []) × (url.password ≡ []) × (url.search ≡ []) × (url.fragment ≡ [])

  -- The URL as it is, or with the well-known path in place of none.
  abbrev pub IsPathOf : Url → Text → Type 0
  IsPathOf url normal =
      (((url.pathname ≡ text "/") ⊎ (url.pathname ≡ []))
        × (normal
            ≡ platform.href (record url { pathname = text "/.well-known/launch-contract.json" })))
      ⊎ ((url.pathname ≢ text "/") × (url.pathname ≢ []) × (normal ≡ platform.href url))

  -- The normal form of the URL of a launch contract.
  abbrev pub IsNormalOf : Text → Text → Type 0
  IsNormalOf input normal =
      (url : Url) × (platform.parse_url input ≡ some url) × IsBare url × IsPathOf url normal

  -- Two URLs of the same launch contract.
  abbrev pub SameTarget : Text → Text → Type 0
  SameTarget left right = (normal : Text) × IsNormalOf left normal × IsNormalOf right normal

  -- The form in which a public URL is fetched: HTTPS at the usual port, of a host that is not local.
  abbrev pub IsPublicOf : Text → Text → Type 0
  IsPublicOf value public =
      (url : Url) × (platform.parse_url value ≡ some url)
      × IsBare url
      × (url.protocol ≡ text "https:")
      × ((url.port ≡ []) ⊎ (url.port ≡ text "443"))
      × (is_local_hostname platform (to_lower_case url.hostname) ≡ false)
      × (public ≡ platform.href (record url { hostname = to_lower_case url.hostname; port = [] }))

  with_default_path-some :
      (url : Url) (normal : Text)
      → with_default_path platform url ≡ some normal
      → IsBare url × IsPathOf url normal
  with_default_path-some url normal h = ground (
    arith,
    is_empty_iff url.username,
    is_empty_iff url.password,
    is_empty_iff url.search,
    is_empty_iff url.fragment,
    is_empty_iff url.pathname,
    path_iff url,
  )

  with_default_path_bare :
      (url : Url) (normal : Text)
      → IsBare url
      → IsPathOf url normal
      → with_default_path platform url ≡ some normal
  with_default_path_bare url normal b p = ground (
    arith,
    is_empty_iff url.username,
    is_empty_iff url.password,
    is_empty_iff url.search,
    is_empty_iff url.fragment,
    is_empty_iff url.pathname,
    path_iff url,
  )

  parsed-IsNormalOf :
      (input normal : Text) (o : Option Url)
      → platform.parse_url input ≡ o
      → (elim o [ none ↦ none | some url ↦ with_default_path platform url ]) ≡ some normal
      → IsNormalOf input normal
  parsed-IsNormalOf input normal none e h = absurd (cc)
  parsed-IsNormalOf input normal (some url) e h =
      let (bare, path) = with_default_path-some url normal h in (url, e, bare, path)

  pub normalize_launch_contract_url-IsNormalOf :
      (input normal : Text)
      → normalize_launch_contract_url platform input ≡ some normal
      → IsNormalOf input normal
  unfolding normalize_launch_contract_url
  normalize_launch_contract_url-IsNormalOf input normal h = parsed-IsNormalOf input normal _ refl h

  IsNormalOf-normalize_launch_contract_url :
      (input normal : Text)
      → IsNormalOf input normal
      → normalize_launch_contract_url platform input ≡ some normal
  unfolding normalize_launch_contract_url
  IsNormalOf-normalize_launch_contract_url input normal (url, e, bare, path) =
      rw (e, normalize_launch_contract_url) (with_default_path_bare url normal bare path)

  same_normal-some :
      (x y : Option Text)
      → same_normal platform x y ≡ true
      → (n : Text) × (x ≡ some n) × (y ≡ some n)
  same_normal-some (some a) (some b) h = (a, refl, ap (λ t. some t) (sym ((list_beq_iff a b).0 h)))
  same_normal-some (some a) none h = absurd (cc)
  same_normal-some none y h = absurd (cc)

  pub same_target-SameTarget :
      (left right : Text) → same_target platform left right ≡ true → SameTarget left right
  unfolding same_target
  same_target-SameTarget left right h =
      let (n, l, r) = same_normal-some _ _ h in
      (
        n,
        normalize_launch_contract_url-IsNormalOf left n l,
        normalize_launch_contract_url-IsNormalOf right n r,
      )

  pub SameTarget-same_target :
      (left right : Text) → SameTarget left right → same_target platform left right ≡ true
  unfolding same_target
  SameTarget-same_target left right (n, l, r) =
      rw (IsNormalOf-normalize_launch_contract_url left n l)
        (rw (IsNormalOf-normalize_launch_contract_url right n r) ((list_beq_iff n n).1 refl))

  checked_url_returns :
      (url : Url) (public : Text)
      → checked_url platform url ≡ returns public
      → IsBare url
        × (url.protocol ≡ text "https:")
        × ((url.port ≡ []) ⊎ (url.port ≡ text "443"))
        × (is_local_hostname platform (to_lower_case url.hostname) ≡ false)
        × (public ≡ platform.href (record url { hostname = to_lower_case url.hostname; port = [] }))
  unfolding checked_url
  checked_url_returns url public h = ground (
    arith,
    is_empty_iff url.username,
    is_empty_iff url.password,
    is_empty_iff url.search,
    is_empty_iff url.fragment,
    is_empty_iff url.port,
    list_beq_iff url.protocol (text "https:"),
    list_beq_iff url.port (text "443"),
  )

  parsed-IsPublicOf :
      (value public : Text) (o : Option Url)
      → platform.parse_url value ≡ o
      → (elim o [
        | none ↦ throws (validation invalid_launch_contract_url)
        | some parsed ↦ checked_url platform parsed
      ])
        ≡ returns public
      → IsPublicOf value public
  parsed-IsPublicOf value public none e h = absurd (cc)
  parsed-IsPublicOf value public (some url) e h =
      let (bare, https, usual, distant, same) = checked_url_returns url public h in
      (url, e, bare, https, usual, distant, same)

  pub normalize_public_https_url-IsPublicOf :
      (value public : Text)
      → normalize_public_https_url platform value ≡ returns public
      → IsPublicOf value public
  unfolding normalize_public_https_url
  normalize_public_https_url-IsPublicOf value public h = parsed-IsPublicOf value public _ refl h
