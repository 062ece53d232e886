-- ===== src/Fix/Tests.antt =====
-- The theorems on the repair wizard at concrete contexts.
use netcheck.Common.{
  Text, true, none, some, [], ◌∷◌, ◌++◌, ◌≡◌, refl, ◌⊎◌, codes, trim, split, decimal, arith, List,
  false, some,
}
use netcheck.Json.{Members, num, member, end}
use netcheck.Fix.Wizard.{
  FixCtx, Form, Params, Request, Wizard, confirm, running, Toast, dns_required, no_params, accepted,
  rejected, gateway_param, open_fix, close_fix, submit, answer, servers_of, check_form, dns_param,
}
use netcheck.Fix.Wizard.Submission.{Judged, submit-Judged}
use netcheck.Fix.Wizard.Interleavings.{PatientStep, IsInStep, busy}
use netcheck.Fix.Wizard.Patience.{patient-IsInStep}
use netcheck.Fix.Gateway.{
  Address, Nic, Quad, primary_address, parts, dotted, candidate, ip_of, octets, suggested_gateway,
  and_bits, or_bits,
}
use netcheck.Fix.Gateway.Subnet.{IsBytes, IsFirstHost, ip_number, suggested_gateway-IsFirstHost}
use netcheck.I18n.Catalog.{pack_for, t, fill_from, message}
use netcheck.I18n.Packs.{i18n}
use netcheck.I18n.Packs.DeDe.{de_de}
use netcheck.Diag.Pattern.{match}
use netcheck.Diag.Translate.{said_or, key_of, apply_rules}
use netcheck.Diag.Translate.Keys.{Said, IsMessage}
use netcheck.Fix.Messages.{fix_msg_keys, fix_rules, translate_fix_message, translate_guide_line}
use netcheck.Fix.Messages.Said.{translate_fix_message-Said}

two_servers : servers_of (codes " 1.1.1.1; 8.8.8.8,") ≡ codes "1.1.1.1" ∷ codes "8.8.8.8" ∷ []
unfolding servers_of
two_servers = refl

abbrev started : FixCtx
started = record {
  check_id = codes "dns-config";
  fixable = codes "fix-dns";
  phase = confirm;
  result = none;
}

abbrev opened : Wizard
opened = record { ctx = some started; pending = []; toasts = []; reloads = 0; errors = 0 }

abbrev filled : Form
filled = record { confirmed = true; dns = some (codes "1.1.1.1 8.8.8.8"); gateway = none }

abbrev empty : Form
empty = record { confirmed = true; dns = some (codes " , "); gateway = none }

no_server : submit empty opened ≡ record opened { toasts = dns_required ∷ [] }
unfolding submit check_form servers_of dns_param
no_server = refl

abbrev request : Request
request = record { check_id = codes "dns-config"; params = no_params }

abbrev busy_wizard : Wizard
busy_wizard = record opened {
  ctx = some (record started { phase = running });
  pending = request ∷ [];
}

abbrev success : Members
success = member (codes "code") (num 0) end

submit-Judged_example :
    ((toast : Toast) × Judged started.fixable filled (rejected toast)
      × (submit filled opened ≡ record opened { toasts = toast ∷ opened.toasts }))
    ⊎ ((params : Params) × Judged started.fixable filled (accepted params)
        × (submit filled opened ≡ record opened {
          ctx = some (record started { phase = running });
          pending =
              opened.pending ++ (record { check_id = started.check_id; params = params } ∷ []);
        }))
submit-Judged_example = submit-Judged started filled opened refl

abbrev gateway_check : FixCtx
gateway_check = record {
  check_id = codes "gateway";
  fixable = codes "fix-gateway";
  phase = confirm;
  result = none;
}

-- While the request waits, another wizard is opened, and its request is sent, too.
abbrev reopened : Wizard
reopened = open_fix (codes "gateway") (codes "fix-gateway") (close_fix busy_wizard)

abbrev gateway_form : Form
gateway_form = record { confirmed = true; dns = none; gateway = some (codes "192.168.1.1") }

abbrev two_waiting : Wizard
two_waiting = submit gateway_form reopened

-- The second request runs, and its wizard shows the answer to the first.
second_runs : two_waiting.ctx ≡ some (record gateway_check { phase = running })
unfolding open_fix close_fix submit check_form gateway_param trim
second_runs = refl

in_step : IsInStep busy_wizard
in_step = busy refl refl refl refl

patient-IsInStep_example :
    IsInStep (answer 0 success busy_wizard)
    × ((answer 0 success busy_wizard).errors ≡ busy_wizard.errors)
patient-IsInStep_example =
    patient-IsInStep (PatientStep.answers busy_wizard success request refl) in_step

abbrev lan : Address
lan = record { addr = codes "192.168.7.93"; prefix = some 22 }

abbrev nics : List Nic
nics = record { is_primary = false; ipv4 = [] } ∷ record { is_primary = true; ipv4 = lan ∷ [] } ∷ []

abbrev lan_quad : Quad
lan_quad = record { a = 192; b = 168; c = 7; d = 93 }

lan_gateway : suggested_gateway nics ≡ codes "192.168.4.1"
unfolding dotted suggested_gateway primary_address parts split trim decimal ip_of candidate octets
    and_bits or_bits
lan_gateway = refl

suggested_gateway-IsFirstHost_example :
    (o : Quad) × (suggested_gateway nics ≡ dotted o)
    × IsBytes o
    × IsFirstHost 22 (ip_number lan_quad) (ip_number o)
unfolding primary_address parts split trim
suggested_gateway-IsFirstHost_example =
    suggested_gateway-IsFirstHost nics lan 22 lan_quad refl refl (omega arith) (omega arith) refl

-- The backend's message in German, and one that no table has.
failed_in_german :
    translate_fix_message i18n (codes "de-DE") (codes " no auto-fix for dns ")
    ≡ codes "Keine automatische Reparatur für dns"
unfolding translate_fix_message fix_msg_keys fix_rules t fill_from message i18n trim said_or key_of
    apply_rules match split pack_for de_de decimal
failed_in_german = refl

translate_fix_message-Said_example :
    Said i18n
      (codes "de-DE")
      (trim (codes " no auto-fix for dns "))
      (translate_fix_message i18n (codes "de-DE") (codes " no auto-fix for dns "))
    × ((line : Text)
        → translate_guide_line i18n (codes "de-DE") (codes " no auto-fix for dns ") ≡ some line
        → IsMessage (pack_for i18n (codes "de-DE")) line)
translate_fix_message-Said_example =
    translate_fix_message-Said (codes "de-DE") (codes " no auto-fix for dns ")
