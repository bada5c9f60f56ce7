-- ===== src/Examples/Domain.antt =====
-- Host names for internal/store/domain.go.
use lamund.Prelude.{◌≡◌, refl, ◌↔◌, none, some, Bytes, codes, has_prefix}
use lamund.Domain.{validate_domain, wildcard, label_hyphen, no_dot}
use lamund.Domain.Rules.{IsDomain, validate_domain_iff}

abbrev site : Bytes
site = codes "toko.lamun.id"

valid : validate_domain site ≡ none
unfolding validate_domain has_prefix
valid = refl

no_wildcard : validate_domain (codes "*.lamun.id") ≡ some wildcard
unfolding validate_domain has_prefix
no_wildcard = refl

no_hyphen : validate_domain (codes "toko-.id") ≡ some label_hyphen
unfolding validate_domain has_prefix
no_hyphen = refl

one_label : validate_domain (codes "localhost") ≡ some no_dot
unfolding validate_domain has_prefix
one_label = refl

validate_domain_iff_example : (validate_domain site ≡ none) ↔ IsDomain site
validate_domain_iff_example = validate_domain_iff site
