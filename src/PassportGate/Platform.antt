-- ===== src/PassportGate/Platform.antt =====
-- What packages/passport-gate calls and does not implement: the URL and Date of the runtime, viem,
-- ipaddr.js and json-canonicalize. All of it is a parameter of the model.
use launch_proof.Shared.{ℤ, Bool, Text, Option, List}

-- The parts of a parsed `URL` that the program reads.
pub record Url : Type 0 where
  pub protocol : Text
  pub username : Text
  pub password : Text
  pub hostname : Text
  pub port : Text
  pub pathname : Text
  pub search : Text
  pub fragment : Text

-- The four texts that an identity hash is made of.
pub record IdentityMaterial : Type 0 where
  pub launch_contract_url : Text
  pub manifest_hash : Text
  pub provider_address : Text
  pub source_revision : Text

pub record Platform : Type 0 where
  -- `new URL(value)`, and `url.toString()`
  pub parse_url : Text → Option Url
  pub href : Url → Text
  -- `ipaddr.isValid(text)`, and `ipaddr.process(text).range() === "unicast"`
  pub is_ip : Text → Bool
  pub is_unicast : Text → Bool
  -- viem: `isAddress(value, { strict: false })`, and `getAddress(value)`
  pub is_address : Text → Bool
  pub get_address : Text → Text
  -- `sha256(stringToHex(toJcs(material)))`
  pub hash_identity : IdentityMaterial → Text
  -- `Date.parse`, with `none` for NaN, and `new Date(ms).toISOString()` for a time in range
  pub parse_date : Text → Option ℤ
  pub iso_string : ℤ → Text
  -- `encodeURIComponent`, with `none` for the URIError of a text that is not well formed
  pub encode_uri_component : Text → Option Text
  -- `new URL("/rehearse", base)` with these query parameters set
  pub rehearse_url : Text → List (Text × Text) → Text
