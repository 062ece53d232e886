-- ===== src/Diag/Labels.antt =====
-- webui/assets/app.js, `checkName`: the name that a check is shown with.
pub mod Shipped
use netcheck.Common.{
  Bool, true, false, not, ◌&&◌, Option, none, some, List, [], ◌∷◌, ◌++◌, String, Text, codes,
  text_eq, before, if◌then◌else◌,
}
use netcheck.I18n.Catalog.{Catalog, t}
use netcheck.Diag.Translate.{key_of}

-- `CHECK_LABELS`
check_labels : List (String × String)
check_labels = ("tnas-online", "TNAS.online") ∷ ("ddns", "DDNS") ∷ []

or_base : Option Text → Text → Text
or_base none base = base
or_base (some label) base = label

-- `CHECK_LABELS[base] || base`
unfoldable pub own_label : Text → Text
unfolding check_labels or_base
own_label base = or_base (key_of check_labels base) base

-- `` port ? `${name} · ${port}` : name ``; a port that is missing is the empty text.
unfoldable pub with_port : Text → Text → Text
with_port [] name = name
with_port (c ∷ port) name = name ++ (codes " · " ++ (c ∷ port))

-- `(label && label !== key) ? label : …`
label_or : Text → Text → Text → Text
label_or label key own = if not (text_eq label []) && not (text_eq label key) then label else own

abbrev pub check_key : Text → Text
check_key id = codes "check." ++ before b':' id

unfoldable pub check_name : Catalog → Text → Text → Text → Text
unfolding with_port label_or own_label
check_name c lang id port =
    with_port port
      (label_or (t c lang (check_key id) []) (check_key id) (own_label (before b':' id)))
