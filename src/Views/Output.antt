-- ===== src/Views/Output.antt =====
-- webui/assets/app.js: what is put into the document, by `render`, by `showModal` and by the handlers
-- that fill an area of a view.
use netcheck.Common.{Bool, if◌then◌else◌}
use netcheck.Html.Template.{Template}
use netcheck.App.{
  View, login, init, forgot, dashboard, interfaces, diagnose, settings, about, history, tools,
  monitor, snapshots, security,
}
use netcheck.Views.Shell.{shell, show_modal, logout_modal}
use netcheck.Views.Account.{view_login, view_init, view_forgot, recovery_code_modal}
use netcheck.Views.Tools.{view_tools, device_list, port_result, trace_result, dns_result}
use netcheck.Views.Security.{view_security, security_content}
use netcheck.Views.Dashboard.{view_dashboard}
use netcheck.Views.Interfaces.{view_interfaces, nic_modal}
use netcheck.Views.Diagnose.{view_diagnose}
use netcheck.Views.Repair.{guide_modal, fix_modal}
use netcheck.Views.Settings.{view_settings, view_about}
use netcheck.Views.History.{view_history, history_delete_modal, history_clear_modal}
use netcheck.Views.Monitor.{view_monitor}
use netcheck.Views.Snapshots.{view_snapshots, snapshot_diff_modal}

-- The table of `render`.
unfoldable pub view_template : View → Template
unfolding view_login view_init view_forgot view_dashboard view_interfaces view_diagnose
    view_settings view_about view_history view_tools view_monitor view_snapshots view_security
view_template login = view_login
view_template init = view_init
view_template forgot = view_forgot
view_template dashboard = view_dashboard
view_template interfaces = view_interfaces
view_template diagnose = view_diagnose
view_template settings = view_settings
view_template about = view_about
view_template history = view_history
view_template tools = view_tools
view_template monitor = view_monitor
view_template snapshots = view_snapshots
view_template security = view_security

-- The modals of `showModal`, and the areas that a handler fills.
pub data Modal : Type 0 where
  logout_asked recovery_code nic_details guide history_delete history_clear snapshot_diff : Modal

pub data Area : Type 0 where
  repair_wizard devices port trace dns_answers exposure : Area

unfoldable pub modal_template : Modal → Template
unfolding logout_modal recovery_code_modal nic_modal guide_modal history_delete_modal
    history_clear_modal snapshot_diff_modal
modal_template logout_asked = logout_modal
modal_template recovery_code = recovery_code_modal
modal_template nic_details = nic_modal
modal_template guide = guide_modal
modal_template history_delete = history_delete_modal
modal_template history_clear = history_clear_modal
modal_template snapshot_diff = snapshot_diff_modal

unfoldable pub area_template : Area → Template
unfolding fix_modal device_list port_result trace_result dns_result security_content
area_template repair_wizard = fix_modal
area_template devices = device_list
area_template port = port_result
area_template trace = trace_result
area_template dns_answers = dns_result
area_template exposure = security_content

-- Something that is put into the document: a page, in the shell or not, a modal, or an area.
pub data Output : Type 0 where
  page : Bool → View → Output
  modal : Modal → Output
  area : Area → Output

unfoldable pub template_of : Output → Template
unfolding view_template modal_template area_template shell show_modal
template_of (page in_shell v) = if in_shell then shell (view_template v) else view_template v
template_of (modal m) = show_modal (modal_template m)
template_of (area a) = area_template a
