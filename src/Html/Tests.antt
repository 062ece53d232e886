-- ===== src/Html/Tests.antt =====
-- The theorems on escaping at concrete texts.
use netcheck.Common.{◌≡◌, refl, codes}
use netcheck.Html.{esc}
use netcheck.Html.Escape.{IsInert, decode, esc-IsInert, decode-esc}

esc_tag : esc (codes "<b>'&'") ≡ codes "&lt;b&gt;&#39;&amp;&#39;"
unfolding esc
esc_tag = refl

esc-IsInert_example : IsInert (esc (codes "<img src=x onerror='a'>"))
esc-IsInert_example = esc-IsInert (codes "<img src=x onerror='a'>")

decode-esc_example : decode (esc (codes "R&D <eth0> \"up\"")) ≡ codes "R&D <eth0> \"up\""
decode-esc_example = decode-esc (codes "R&D <eth0> \"up\"")
