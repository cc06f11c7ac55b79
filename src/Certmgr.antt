-- ===== src/Certmgr.antt =====
-- internal/certmgr/certmgr.go and credentials.go: the names of domains, and the registry of the
-- credentials by which certificates are issued. `to_ascii` (golang.org/x/net/idna) and `parses_ip`
-- are parameters.
pub mod Covers
pub mod Selected
mod Tests
use singbox_deploy.Common.{
  ℕ, suc, Text, codes, text_eq, nat_eq, ◌==◌, Bool, true, false, not, ◌&&◌, ◌||◌, Option, none,
  some, List, [], ◌∷◌, ◌++◌, length, contains, index_from, set, select, trim_space, to_lower, split,
  is_empty, if◌then◌else◌, ltb, Result, ok, err, ◌>>=◌,
}

pub record Names : Type 0 where
  pub to_ascii : Text → Option Text
  pub parses_ip : Text → Bool

-- `strings.TrimSuffix(domain, ".")`
unfoldable pub trim_dot_suffix : Text → Text
trim_dot_suffix [] = []
trim_dot_suffix (c ∷ s) =
    let rest = trim_dot_suffix s in if is_empty s && c == b'.' then [] else c ∷ rest

pub data DomainError : Type 0 where
  required not_ascii too_long is_ip one_label label_length label_hyphen label_byte : DomainError

-- A byte that a label may have.
unfoldable pub is_label_byte : ℕ → Bool
is_label_byte c =
    (not (ltb c b'a') && not (ltb b'z' c)) || (not (ltb c b'0') && not (ltb b'9' c)) || c == b'-'

unfoldable pub last_byte : Text → Option ℕ
last_byte [] = none
last_byte (c ∷ s) = let rest = last_byte s in if is_empty s then some c else rest

abbrev is_hyphen : Option ℕ → Bool
is_hyphen none = false
is_hyphen (some c) = c == b'-'

abbrev first_byte : Text → Option ℕ
first_byte [] = none
first_byte (c ∷ s) = some c

-- One round of the loop over the labels.
unfoldable pub check_label : Text → Option DomainError
check_label label =
    if is_empty label || ltb 63 (length label)
    then some DomainError.label_length
    else if is_hyphen (first_byte label) || is_hyphen (last_byte label)
    then some DomainError.label_hyphen
    else if not (is_empty (select (λ c. not (is_label_byte c)) label))
    then some DomainError.label_byte
    else none

unfoldable pub check_labels : List Text → Option DomainError
check_labels [] = none
check_labels (l ∷ ls) =
    let rest = check_labels ls in elim (check_label l) [ none ↦ rest | some e ↦ some e ]

-- The tests after the conversion.
unfoldable pub check_ascii : Names → Text → Result DomainError Text
check_ascii os ascii =
    if ltb 253 (length ascii)
    then err DomainError.too_long
    else if os.parses_ip ascii
    then err DomainError.is_ip
    else if ltb (length (split b'.' ascii)) 2
    then err DomainError.one_label
    else elim (check_labels (split b'.' ascii)) [ some e ↦ err e | none ↦ ok ascii ]

-- `NormalizeDomain`
unfoldable pub normalize_domain : Names → Text → Result DomainError Text
normalize_domain os domain =
    if is_empty (trim_dot_suffix (trim_space domain))
    then err DomainError.required
    else elim (os.to_ascii (trim_dot_suffix (trim_space domain))) [
      | none ↦ err DomainError.not_ascii
      | some ascii ↦ check_ascii os (to_lower ascii)
    ]

unfoldable pub has_suffix : Text → Text → Bool
has_suffix [] suffix = is_empty suffix
has_suffix (c ∷ s) suffix =
    let rest = has_suffix s suffix in if (c ∷ s) == suffix then true else rest

-- `DomainCovers` on names that are normalized already.
unfoldable pub covers_name : Text → Text → Bool
covers_name base domain = domain == base || has_suffix domain (b'.' ∷ base)

-- `DomainCovers`
unfoldable pub domain_covers : Names → Text → Text → Bool
domain_covers os base domain = elim (normalize_domain os base) [
  | err e ↦ false
  | ok b ↦ elim (normalize_domain os domain) [ err e ↦ false | ok d ↦ covers_name b d ]
]

pub record DnsCredential : Type 0 where
  pub domain : Text
  pub provider : Text
  pub credential : Text

unfoldable pub supported_provider : Text → Bool
supported_provider name = name == codes "cloudflare" || name == codes "aliyun"

-- `strings.Cut(s, ":")`
unfoldable pub cut_colon : Text → Option (Text × Text)
cut_colon [] = none
cut_colon (c ∷ s) =
    let rest = cut_colon s in
    if c == b':'
    then some ([], s)
    else elim rest [ none ↦ none | some parts ↦ some (c ∷ parts.0, parts.1) ]

pub data CredentialError : Type 0 where
  bad_domain : DomainError → CredentialError
  bad_provider no_secret bad_pair : CredentialError

abbrev is_pair : Option (Text × Text) → Bool
is_pair none = false
is_pair (some parts) =
    not (is_empty (trim_space (parts.0))) && not (is_empty (trim_space (parts.1)))

-- `normalizeCredential`, with the tests of `Validate`.
unfoldable pub normalize_credential : Names → DnsCredential → Result CredentialError DnsCredential
normalize_credential os c = elim (normalize_domain os c.domain) [
  | err e ↦ err (CredentialError.bad_domain e)
  | ok domain ↦
      if not (supported_provider (trim_space c.provider))
      then err CredentialError.bad_provider
      else if is_empty (trim_space c.credential)
      then err CredentialError.no_secret
      else if trim_space c.provider == codes "aliyun" && not (is_pair (cut_colon c.credential))
      then err CredentialError.bad_pair
      else ok (record {
        domain = domain;
        provider = trim_space c.provider;
        credential = trim_space c.credential;
      })
]

-- The loop of `transactCredentials` over the entries.
unfoldable pub normalize_all :
    Names → List DnsCredential → Result CredentialError (List DnsCredential)
normalize_all os [] = ok []
normalize_all os (c ∷ cs) = elim (normalize_credential os c) [
  | err e ↦ err e
  | ok n ↦ elim (normalize_all os cs) [ err e ↦ err e | ok ns ↦ ok (n ∷ ns) ]
]

unfoldable pub credential_at : Text → List DnsCredential → Option ℕ
credential_at domain = index_from (λ (c : DnsCredential). c.domain == domain) 0

-- The mutations of `UpsertCredential`, `AddCredentialIfAbsent` and `DeleteCredential`.
unfoldable pub upsert : DnsCredential → List DnsCredential → List DnsCredential
upsert c list = elim (credential_at c.domain list) [ none ↦ list ++ c ∷ [] | some i ↦ set list i c ]

unfoldable pub add_if_absent : DnsCredential → List DnsCredential → Bool × List DnsCredential
add_if_absent c list = elim (credential_at c.domain list) [
  | none ↦ (true, list ++ c ∷ [])
  | some i ↦ (false, list)
]

unfoldable pub delete : Text → List DnsCredential → List DnsCredential
delete domain list = select (λ (c : DnsCredential). not (c.domain == domain)) list

unfoldable pub is_longer : ℕ → Option (DnsCredential × ℕ) → Bool
is_longer n none = true
is_longer n (some b) = ltb b.1 n

-- The loop of `SelectCredential`: the best so far with the length of its base. Before any, the
-- length is -1, so that the first base that covers wins.
unfoldable pub select_loop :
    Names → Text → Option (DnsCredential × ℕ) → List DnsCredential → Option (DnsCredential × ℕ)
select_loop os domain best [] = best
select_loop os domain best (c ∷ cs) =
    let same = select_loop os domain best cs in
    elim (normalize_domain os c.domain) [
      | err e ↦ same
      | ok base ↦
          let better = select_loop os domain (some (c, length base)) cs in
          if domain_covers os base domain && is_longer (length base) best then better else same
    ]

unfoldable pub select_credential : Names → List DnsCredential → Text → Option DnsCredential
select_credential os creds domain = elim (normalize_domain os domain) [
  | err e ↦ none
  | ok name ↦ elim (select_loop os name none creds) [ none ↦ none | some b ↦ some (b.0) ]
]
