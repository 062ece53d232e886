-- ===== src/Views/Tests.antt =====
-- The templates at concrete values.
use netcheck.Common.{true, codes, ◌≡◌, All, [], String, Text, if◌then◌else◌, arith}
use netcheck.Html.Escape.{IsInert}
use netcheck.Html.Template.{Scope, scope, none, more, render}
use netcheck.Html.Template.Context.{in_text, run, structure}
use netcheck.Html.Template.Outline.{shape_of, outline}
use netcheck.Html.Template.Trust.{is_among, IsClean}
use netcheck.I18n.Catalog.{t}
use netcheck.I18n.Packs.{i18n}
use netcheck.Views.Output.{area, exposure, template_of}
use netcheck.Views.Markup.{trusted, output-structure}
use netcheck.Views.Messages.{raw_keys, raw_message-IsInert}

-- A number where a value is put in as it is, and any other value would open a tag and end an
-- attribute.
abbrev values : String → Text
values name = if is_among trusted name then codes "12" else codes "'\"><img src=x>"

-- Two ports, and nothing else that is listed.
abbrev port_scope : Scope
port_scope = scope values (λ name. true) (λ name. none)

abbrev two_ports : Scope
two_ports = scope values (λ name. true) (λ name. more port_scope (more port_scope none))

values-IsInert : (name : String) → is_among trusted name ≡ true → IsInert (values name)
values-IsInert name h = rw h (ground arith)

port_scope-IsClean : IsClean trusted port_scope
unfolding IsClean
port_scope-IsClean = (values-IsInert, λ name. tt)

two_ports-IsClean : IsClean trusted two_ports
unfolding IsClean
two_ports-IsClean = (values-IsInert, λ name. (port_scope-IsClean, (port_scope-IsClean, tt)))

output-structure_example :
    (structure in_text (render two_ports (template_of (area exposure)))
      ≡ outline (shape_of two_ports) in_text (template_of (area exposure)))
    × (run in_text (render two_ports (template_of (area exposure))) ≡ in_text)
output-structure_example = output-structure (area exposure) two_ports two_ports-IsClean

raw_message-IsInert_example : All (λ key. IsInert (t i18n (codes "de-DE") (codes key) [])) raw_keys
raw_message-IsInert_example = raw_message-IsInert (codes "de-DE")
