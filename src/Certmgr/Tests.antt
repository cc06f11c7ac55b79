-- ===== src/Certmgr/Tests.antt =====
-- The selection of credentials on concrete names, which are in ASCII already.
use singbox_deploy.Common.{
  Text, codes, false, some, List, [], ◌∷◌, ◌≡◌, refl, ok, err, text_beq, trim_space, to_lower,
  lower_rune, split, select,
}
use singbox_deploy.Certmgr.{
  Names, DnsCredential, DomainError, normalize_domain, check_ascii, check_labels, check_label,
  trim_dot_suffix, is_label_byte, last_byte, domain_covers, covers_name, has_suffix, select_loop,
  is_longer, select_credential,
}
use singbox_deploy.Certmgr.Selected.{Selected, select_credential-Selected}

abbrev os : Names
os = record { to_ascii = λ (s : Text). some s; parses_ip = λ (s : Text). false }

abbrev wide : DnsCredential
wide = record { domain = codes "a.io"; provider = codes "aliyun"; credential = codes "k:s" }

abbrev narrow : DnsCredential
narrow = record { domain = codes "b.a.io"; provider = codes "cloudflare"; credential = codes "t" }

abbrev other : DnsCredential
other = record narrow { domain = codes "c.io" }

abbrev three : List DnsCredential
three = wide ∷ narrow ∷ other ∷ []

normal : normalize_domain os (codes " X.b.A.io. ") ≡ ok (codes "x.b.a.io")
unfolding normalize_domain check_ascii check_labels check_label trim_dot_suffix is_label_byte
    last_byte trim_space to_lower lower_rune split select
normal = refl

one_label : normalize_domain os (codes "io") ≡ err DomainError.one_label
unfolding normalize_domain check_ascii trim_dot_suffix trim_space to_lower lower_rune split
one_label = refl

narrow-selected : select_credential os three (codes " X.b.A.io. ") ≡ some narrow
unfolding select_credential select_loop is_longer domain_covers covers_name has_suffix
    normalize_domain check_ascii check_labels check_label trim_dot_suffix is_label_byte last_byte
    trim_space to_lower lower_rune split select text_beq
narrow-selected = refl

select_credential-Selected_example :
    Selected os (codes "x.b.a.io") three (select_credential os three (codes " X.b.A.io. "))
select_credential-Selected_example =
    select_credential-Selected os three (codes " X.b.A.io. ") (codes "x.b.a.io") normal
