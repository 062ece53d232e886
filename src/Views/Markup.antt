-- ===== src/Views/Markup.antt =====
-- What is put into the document keeps the structure that the templates have.
use netcheck.Common.{List, [], ◌∷◌, String, Bool, true, false, ◌&&◌, ◌≡◌, refl}
use netcheck.App.{
  View, login, init, forgot, dashboard, interfaces, diagnose, settings, about, history, tools,
  monitor, snapshots, security,
}
use netcheck.Html.Template.{Template, Scope, render}
use netcheck.Html.Template.Context.{in_text, run, structure, step, same}
use netcheck.Html.Template.Outline.{shape_of, after, fits, outline}
use netcheck.Html.Template.Trust.{raws_among, IsClean, IsClean-IsTame}
use netcheck.Html.Template.Sound.{structure-render}
use netcheck.Views.Output.{
  Modal, Area, logout_asked, recovery_code, nic_details, guide, history_delete, history_clear,
  snapshot_diff, repair_wizard, devices, port, trace, dns_answers, exposure, Output, page, modal,
  area, template_of,
}

-- The interpolations with no `esc`: lengths and places in the chart, dates, texts of the packs, codes
-- and names of the code's own tables (pages, languages, themes, the kinds of an entry of the history,
-- the colours of the groups), and of the backend's values the score, `rep.summary[s]`,
-- `exp.exposed_count`, `diag.total` and `p.risk`.
abbrev pub trusted : List String
trusted =
    "(exp.ports||[]).length" ∷ "Object.keys(s.files||{}).length" ∷ "alerts.length" ∷ "anchor" ∷ "c"
    ∷ "cy" ∷ "diag.total ?? diag.items.length" ∷ "exp.exposed_count ?? \"—\"" ∷ "fixes.length"
    ∷ "i+1" ∷ "issues.length" ∷ "meta[0]" ∷ "modules.length" ∷ "monitorEnabled" ∷ "n"
    ∷ "new Date(a.ts*1000).toLocaleString()" ∷ "new Date(s.ts*1000).toLocaleString()" ∷ "p"
    ∷ "p.risk" ∷ "plot.bottom" ∷ "plot.left" ∷ "plot.right" ∷ "plot.top"
    ∷ "points.map(([sample,,cy], index)=> `${index ? \"L\" : \"M\"}${x(sample.ts).toFixed(1)} ${cy.toFixed(1)}`).join(\" \")"
    ∷ "rep.groups[g].length" ∷ "rep.summary[s]" ∷ "state.diagReport?.score ?? 100"
    ∷ "state.diagReport?.score ?? \"—\"" ∷ "t(\"common.off\")" ∷ "t(\"common.on\")"
    ∷ "t(\"fix.fail\")" ∷ "t(\"fix.ok\")" ∷ "t(\"fix.pending\")" ∷ "t(\"security.active\")"
    ∷ "t(\"security.inactive\")" ∷ "t(\"tools.closed\")" ∷ "t(\"tools.open\")" ∷ "tx" ∷ "type" ∷ "v"
    ∷ "visibleNics.length" ∷ "x(sample.ts).toFixed(1)" ∷ "y(rtt).toFixed(1)" ∷ []

-- A template fits a text and ends in one.
abbrev pub is_closed : Template → Bool
is_closed t = fits in_text t && same (after in_text t) in_text

bare-is_closed : (v : View) → is_closed (template_of (page false v)) ≡ true
unfolding template_of fits after step
bare-is_closed login = refl
bare-is_closed init = refl
bare-is_closed forgot = refl
bare-is_closed dashboard = refl
bare-is_closed interfaces = refl
bare-is_closed diagnose = refl
bare-is_closed settings = refl
bare-is_closed about = refl
bare-is_closed history = refl
bare-is_closed tools = refl
bare-is_closed monitor = refl
bare-is_closed snapshots = refl
bare-is_closed security = refl

shelled-is_closed : (v : View) → is_closed (template_of (page true v)) ≡ true
unfolding template_of fits after step
shelled-is_closed login = refl
shelled-is_closed init = refl
shelled-is_closed forgot = refl
shelled-is_closed dashboard = refl
shelled-is_closed interfaces = refl
shelled-is_closed diagnose = refl
shelled-is_closed settings = refl
shelled-is_closed about = refl
shelled-is_closed history = refl
shelled-is_closed tools = refl
shelled-is_closed monitor = refl
shelled-is_closed snapshots = refl
shelled-is_closed security = refl

modal-is_closed : (m : Modal) → is_closed (template_of (modal m)) ≡ true
unfolding template_of fits after step
modal-is_closed logout_asked = refl
modal-is_closed recovery_code = refl
modal-is_closed nic_details = refl
modal-is_closed guide = refl
modal-is_closed history_delete = refl
modal-is_closed history_clear = refl
modal-is_closed snapshot_diff = refl

area-is_closed : (a : Area) → is_closed (template_of (area a)) ≡ true
unfolding template_of fits after step
area-is_closed repair_wizard = refl
area-is_closed devices = refl
area-is_closed port = refl
area-is_closed trace = refl
area-is_closed dns_answers = refl
area-is_closed exposure = refl

template_of-is_closed : (o : Output) → is_closed (template_of o) ≡ true
template_of-is_closed (page false v) = bare-is_closed v
template_of-is_closed (page true v) = shelled-is_closed v
template_of-is_closed (modal m) = modal-is_closed m
template_of-is_closed (area a) = area-is_closed a

bare-raws_among : (v : View) → raws_among trusted (template_of (page false v)) ≡ true
unfolding template_of raws_among
bare-raws_among login = refl
bare-raws_among init = refl
bare-raws_among forgot = refl
bare-raws_among dashboard = refl
bare-raws_among interfaces = refl
bare-raws_among diagnose = refl
bare-raws_among settings = refl
bare-raws_among about = refl
bare-raws_among history = refl
bare-raws_among tools = refl
bare-raws_among monitor = refl
bare-raws_among snapshots = refl
bare-raws_among security = refl

shelled-raws_among : (v : View) → raws_among trusted (template_of (page true v)) ≡ true
unfolding template_of raws_among
shelled-raws_among login = refl
shelled-raws_among init = refl
shelled-raws_among forgot = refl
shelled-raws_among dashboard = refl
shelled-raws_among interfaces = refl
shelled-raws_among diagnose = refl
shelled-raws_among settings = refl
shelled-raws_among about = refl
shelled-raws_among history = refl
shelled-raws_among tools = refl
shelled-raws_among monitor = refl
shelled-raws_among snapshots = refl
shelled-raws_among security = refl

modal-raws_among : (m : Modal) → raws_among trusted (template_of (modal m)) ≡ true
unfolding template_of raws_among
modal-raws_among logout_asked = refl
modal-raws_among recovery_code = refl
modal-raws_among nic_details = refl
modal-raws_among guide = refl
modal-raws_among history_delete = refl
modal-raws_among history_clear = refl
modal-raws_among snapshot_diff = refl

area-raws_among : (a : Area) → raws_among trusted (template_of (area a)) ≡ true
unfolding template_of raws_among
area-raws_among repair_wizard = refl
area-raws_among devices = refl
area-raws_among port = refl
area-raws_among trace = refl
area-raws_among dns_answers = refl
area-raws_among exposure = refl

template_of-raws_among : (o : Output) → raws_among trusted (template_of o) ≡ true
template_of-raws_among (page false v) = bare-raws_among v
template_of-raws_among (page true v) = shelled-raws_among v
template_of-raws_among (modal m) = modal-raws_among m
template_of-raws_among (area a) = area-raws_among a

-- Whatever is put into the document, a page, a modal or an area that a handler fills: its tags, with
-- the names of their attributes, are those of the template, for the outcomes of the tests and the
-- numbers of the elements, and it ends outside of every tag. The values of the interpolations that
-- `trusted` lists must hold none of < > " ', in the scope and in those of its elements; all other
-- values are arbitrary.
pub output-structure :
    (o : Output) (e : Scope)
    → IsClean trusted e
    → (structure in_text (render e (template_of o)) ≡ outline (shape_of e) in_text (template_of o))
      × (run in_text (render e (template_of o)) ≡ in_text)
output-structure o e clean =
    structure-render (template_of o) e (template_of-is_closed o)
      (IsClean-IsTame trusted (template_of o) e clean (template_of-raws_among o))
