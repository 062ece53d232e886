-- ===== src/I18n/Packs/ZhCn.antt =====
-- webui/assets/i18n.js, the simplified Chinese pack, in the order of the source.
mod Shell
mod Tools
mod Records
mod Checks
mod Messages
mod Reasons
use Prim.Native.String.{String}
use mathlib.Core.List.{List, ◌++◌}
use Shell.{zh_cn_shell}
use Tools.{zh_cn_tools}
use Records.{zh_cn_records}
use Checks.{zh_cn_checks}
use Messages.{zh_cn_messages}
use Reasons.{zh_cn_reasons}

unfoldable pub zh_cn : List (String × String)
unfolding zh_cn_shell zh_cn_tools zh_cn_records zh_cn_checks zh_cn_messages zh_cn_reasons
zh_cn =
    zh_cn_shell ++ zh_cn_tools ++ zh_cn_records ++ zh_cn_checks ++ zh_cn_messages ++ zh_cn_reasons
