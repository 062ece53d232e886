-- ===== src/I18n/Packs/DeDe.antt =====
-- webui/assets/i18n.js, the German pack, in the order of the source.
mod Shell
mod Tools
mod Records
mod Checks
mod Messages
mod Reasons
use Prim.Native.String.{String}
use mathlib.Core.List.{List, ◌++◌}
use Shell.{de_de_shell}
use Tools.{de_de_tools}
use Records.{de_de_records}
use Checks.{de_de_checks}
use Messages.{de_de_messages}
use Reasons.{de_de_reasons}

unfoldable pub de_de : List (String × String)
unfolding de_de_shell de_de_tools de_de_records de_de_checks de_de_messages de_de_reasons
de_de =
    de_de_shell ++ de_de_tools ++ de_de_records ++ de_de_checks ++ de_de_messages ++ de_de_reasons
