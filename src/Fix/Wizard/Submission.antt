-- ===== src/Fix/Wizard/Submission.antt =====
-- What the repair button of an open wizard leads to.
use netcheck.Common.{
  suc, Bool, true, false, Option, none, some, List, [], ◌∷◌, ◌++◌, ◌≡◌, ap, ◌≢◌, refl, ◌⊎◌, inl,
  inr, Text, codes, text_eq, trim, subst, sym, eq_of_text_eq, not, if◌then◌else◌, Option-cases, ◌∙◌,
}
use netcheck.Fix.Wizard.Servers.{Splits, servers_of-Splits}
use netcheck.Fix.Wizard.{
  FixCtx, Form, Params, Wizard, no_params, running, dns_param, gateway_param, Checked, accepted,
  rejected, with_dns, with_gateway, and_then, check_form, submit, send, Toast, confirm_first,
  dns_required, gateway_required,
}

-- The name servers that a form lists: the words of its field, and none without a field.
pub data Lists : Option Text → List Text → Type 0 where
  no_field : Lists none []
  field : {s : Text} {ds : List Text} → Splits s ds → Lists (some s) ds

dns_param-Lists : (form : Form) → Lists form.dns (dns_param form)
unfolding dns_param
dns_param-Lists form = elim (Option-cases form.dns) [
  | inl e ↦ rw (e, dns_param) no_field
  | inr (s, e) ↦ rw (e, dns_param) (field (servers_of-Splits s))
]

-- The gateway that a form has: its field without the white space at both ends.
pub data Enters : Option Text → Text → Type 0 where
  no_field : Enters none []
  field : {s : Text} → Enters (some s) (trim s)

gateway_param-Enters : (form : Form) → Enters form.gateway (gateway_param form)
unfolding gateway_param
gateway_param-Enters form = elim (Option-cases form.gateway) [
  | inl e ↦ rw (e, gateway_param) Enters.no_field
  | inr (s, e) ↦ rw (e, gateway_param) Enters.field
]

-- What the button leads to for a repair of this kind with this form: the toast, or the parameters
-- of the request, each of them what the kind of repair needs and the form holds, and no other.
pub data Judged (fixable : Text) (form : Form) : Checked → Type 0 where
  unconfirmed : form.confirmed ≡ false → Judged fixable form (rejected confirm_first)
  no_servers :
      form.confirmed ≡ true
      → fixable ≡ codes "fix-dns"
      → Lists form.dns []
      → Judged fixable form (rejected dns_required)
  servers :
      {ds : List Text}
      → form.confirmed ≡ true
      → fixable ≡ codes "fix-dns"
      → Lists form.dns ds
      → ds ≢ []
      → Judged fixable form (accepted (record { dns = some ds; gateway = none }))
  no_gateway :
      form.confirmed ≡ true
      → fixable ≡ codes "fix-gateway"
      → Enters form.gateway []
      → Judged fixable form (rejected gateway_required)
  gateway :
      {g : Text}
      → form.confirmed ≡ true
      → fixable ≡ codes "fix-gateway"
      → Enters form.gateway g
      → g ≢ []
      → Judged fixable form (accepted (record { dns = none; gateway = some g }))
  plain :
      form.confirmed ≡ true
      → fixable ≢ codes "fix-dns"
      → fixable ≢ codes "fix-gateway"
      → Judged fixable form (accepted (record { dns = none; gateway = none }))

with_dns-Judged :
    (fixable : Text) (form : Form) (ds : List Text)
    → form.confirmed ≡ true
    → fixable ≡ codes "fix-dns"
    → Lists form.dns ds
    → Judged fixable form (with_dns ds no_params)
unfolding with_dns
with_dns-Judged fixable form [] on kind listed = no_servers on kind listed
with_dns-Judged fixable form (d ∷ ds) on kind listed = servers on kind listed (λ f. cc)

with_gateway-Judged :
    (fixable : Text) (form : Form) (g : Text)
    → form.confirmed ≡ true
    → fixable ≡ codes "fix-gateway"
    → Enters form.gateway g
    → Judged fixable form (with_gateway g no_params)
unfolding with_gateway
with_gateway-Judged fixable form [] on kind entered = no_gateway on kind entered
with_gateway-Judged fixable form (c ∷ g) on kind entered = gateway on kind entered (λ f. cc)

and_then-same : (a : Checked) → and_then a (λ p. accepted p) ≡ a
unfolding and_then
and_then-same (rejected toast) = refl
and_then-same (accepted params) = refl

text_eq-ne : (s u : Text) → text_eq u u ≡ true → text_eq s u ≡ false → s ≢ u
text_eq-ne s u same differ e = let other = subst (λ x. text_eq x u ≡ false) e differ in cc

tests-Judged :
    (fixable : Text) (form : Form) (on dns gw : Bool)
    → form.confirmed ≡ on
    → text_eq fixable (codes "fix-dns") ≡ dns
    → text_eq fixable (codes "fix-gateway") ≡ gw
    → Judged fixable form (
        if not on
        then rejected confirm_first
        else and_then
            (if dns then with_dns (dns_param form) no_params else accepted no_params)
            (λ (params : Params).
              if gw then with_gateway (gateway_param form) params else accepted params))
unfolding and_then
tests-Judged fixable form false dns gw c d g = unconfirmed c
tests-Judged fixable form true true true c d g =
    let kind = eq_of_text_eq fixable (codes "fix-dns") d in
    let again = subst (λ x. text_eq x (codes "fix-gateway") ≡ true) kind g in cc
tests-Judged fixable form true true false c d g =
    subst (λ x. Judged fixable form x) (sym (and_then-same (with_dns (dns_param form) no_params)))
      (with_dns-Judged fixable form (dns_param form) c (eq_of_text_eq fixable (codes "fix-dns") d)
        (dns_param-Lists form))
tests-Judged fixable form true false true c d g =
    with_gateway-Judged fixable form (gateway_param form) c
      (eq_of_text_eq fixable (codes "fix-gateway") g) (gateway_param-Enters form)
tests-Judged fixable form true false false c d g =
    plain c (text_eq-ne fixable (codes "fix-dns") refl d)
      (text_eq-ne fixable (codes "fix-gateway") refl g)

check_form-Judged : (fixable : Text) (form : Form) → Judged fixable form (check_form fixable form)
unfolding check_form
check_form-Judged fixable form =
    tests-Judged fixable form form.confirmed (text_eq fixable (codes "fix-dns"))
      (text_eq fixable (codes "fix-gateway")) refl refl refl

send-Judged :
    (ctx : FixCtx) (form : Form) (w : Wizard) (c : Checked)
    → Judged ctx.fixable form c
    → ((toast : Toast) × Judged ctx.fixable form (rejected toast)
        × (send ctx c w ≡ record w { toasts = toast ∷ w.toasts }))
      ⊎ ((params : Params) × Judged ctx.fixable form (accepted params)
          × (send ctx c w ≡ record w {
            ctx = some (record ctx { phase = running });
            pending = w.pending ++ (record { check_id = ctx.check_id; params = params } ∷ []);
          }))
unfolding send
send-Judged ctx form w (rejected toast) h = inl (toast, h, refl)
send-Judged ctx form w (accepted params) h = inr (params, h, refl)

pub submit-open :
    (ctx : FixCtx) (form : Form) (w : Wizard)
    → w.ctx ≡ some ctx
    → submit form w ≡ send ctx (check_form ctx.fixable form) w
unfolding submit
submit-open ctx form w h =
    ap
      (λ (o : Option FixCtx). elim o [
        | none ↦ record w { errors = suc w.errors }
        | some ctx ↦ send ctx (check_form ctx.fixable form) w
      ])
      h

-- Pressing the repair button of an open wizard either sends nothing and shows one toast, or sends
-- one request, for the check of the wizard, and the wizard runs. Without the confirmation it is the
-- toast that asks for it. A repair of the name servers sends exactly the words of its field, none
-- of them empty or with a separator, or shows its toast if there is none; a repair of the gateway
-- sends exactly its field without the white space at both ends, or shows its toast if that is
-- empty; any other repair sends no parameter.
pub submit-Judged :
    (ctx : FixCtx) (form : Form) (w : Wizard)
    → w.ctx ≡ some ctx
    → ((toast : Toast) × Judged ctx.fixable form (rejected toast)
        × (submit form w ≡ record w { toasts = toast ∷ w.toasts }))
      ⊎ ((params : Params) × Judged ctx.fixable form (accepted params)
          × (submit form w ≡ record w {
            ctx = some (record ctx { phase = running });
            pending = w.pending ++ (record { check_id = ctx.check_id; params = params } ∷ []);
          }))
submit-Judged ctx form w h =
    elim (send-Judged ctx form w (check_form ctx.fixable form)
      (check_form-Judged ctx.fixable form)) [
        | inl (toast, judged, e) ↦ inl (toast, judged, submit-open ctx form w h ∙ e)
        | inr (params, judged, e) ↦ inr (params, judged, submit-open ctx form w h ∙ e)
      ]
