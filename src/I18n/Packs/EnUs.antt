-- ===== src/I18n/Packs/EnUs.antt =====
-- webui/assets/i18n.js, the English pack, in the order of the source.
mod Shell
mod Tools
mod Records
mod Checks
mod Messages
mod Reasons
use Prim.Native.String.{String}
use mathlib.Core.List.{List, ◌++◌}
use Shell.{en_us_shell}
use Tools.{en_us_tools}
use Records.{en_us_records}
use Checks.{en_us_checks}
use Messages.{en_us_messages}
use Reasons.{en_us_reasons}

unfoldable pub en_us : List (String × String)
unfolding en_us_shell en_us_tools en_us_records en_us_checks en_us_messages en_us_reasons
en_us =
    en_us_shell ++ en_us_tools ++ en_us_records ++ en_us_checks ++ en_us_messages ++ en_us_reasons
