-- ===== src/I18n/Packs/FrFr.antt =====
-- webui/assets/i18n.js, the French pack, in the order of the source.
mod Shell
mod Tools
mod Records
mod Checks
mod Messages
mod Reasons
use Prim.Native.String.{String}
use mathlib.Core.List.{List, ◌++◌}
use Shell.{fr_fr_shell}
use Tools.{fr_fr_tools}
use Records.{fr_fr_records}
use Checks.{fr_fr_checks}
use Messages.{fr_fr_messages}
use Reasons.{fr_fr_reasons}

unfoldable pub fr_fr : List (String × String)
unfolding fr_fr_shell fr_fr_tools fr_fr_records fr_fr_checks fr_fr_messages fr_fr_reasons
fr_fr =
    fr_fr_shell ++ fr_fr_tools ++ fr_fr_records ++ fr_fr_checks ++ fr_fr_messages ++ fr_fr_reasons
