-- ===== src/I18n/Packs/ZhCn/Records.antt =====
-- webui/assets/i18n.js, the simplified Chinese pack: theme, settings, history, monitor and snapshot texts.
use Prim.Native.String.{String}
use mathlib.Core.List.{List, [], ◌∷◌}

unfoldable pub zh_cn_records : List (String × String)
zh_cn_records =
    ("theme.system", "跟随系统")
    ∷ ("theme.light", "浅色")
    ∷ ("theme.dark", "深色")
    ∷ ("common.confirm", "确认")
    ∷ ("common.on", "开启")
    ∷ ("common.off", "关闭")
    ∷ ("common.operationFailed", "操作失败：{1}")
    ∷ ("settings.repairMode", "修复模式")
    ∷ ("settings.requireAdmin", "需要管理员确认")
    ∷ ("settings.version", "版本")
    ∷ ("settings.arch", "架构")
    ∷ ("settings.build", "构建时间")
    ∷ ("history.job", "任务")
    ∷ ("history.score", "评分")
    ∷ ("history.level", "等级")
    ∷ ("history.summary", "通过/警告/失败/不适用")
    ∷ ("history.duration", "耗时")
    ∷ ("history.time", "时间")
    ∷ ("history.check", "检查")
    ∷ ("history.action", "操作")
    ∷ ("history.result", "结果")
    ∷ ("history.event", "事件")
    ∷ ("history.message", "消息")
    ∷ ("monitor.sub", "链路质量 · {1} 个样本 · {2} 条告警")
    ∷ ("monitor.days7", "最近 7 天")
    ∷ ("monitor.days30", "最近 30 天")
    ∷ ("monitor.sampleNow", "立即采样")
    ∷ ("monitor.testAlert", "测试告警")
    ∷ ("monitor.avgLoss", "平均网关丢包")
    ∷ ("monitor.avgRtt", "平均网关 RTT")
    ∷ ("monitor.maxLoss", "最大丢包")
    ∷ ("monitor.rttTrend", "网关 RTT 趋势")
    ∷ ("monitor.noSamples", "尚无样本，请点击“立即采样”。")
    ∷ ("monitor.alertHistory", "告警历史")
    ∷ ("monitor.noAlerts", "无告警，链路健康")
    ∷ ("toast.sampleTaken", "采样完成")
    ∷ ("toast.testSent", "测试通知已发送")
    ∷ ("toast.testFailed", "测试失败")
    ∷ ("snapshots.count", "{1} 个快照")
    ∷ ("snapshots.create", "创建快照")
    ∷ ("snapshots.id", "ID")
    ∷ ("snapshots.source", "来源")
    ∷ ("snapshots.note", "备注")
    ∷ ("snapshots.files", "文件")
    ∷ ("snapshots.actions", "操作")
    ∷ ("snapshots.none", "暂无快照")
    ∷ ("snapshots.diff", "差异")
    ∷ ("snapshots.restore", "恢复")
    ∷ ("snapshots.manualNote", "来自 Web 界面的手动快照")
    ∷ ("toast.snapshotCreated", "快照已创建")
    ∷ ("snapshots.noDifferences", "没有差异")
    ∷ ("snapshots.diffTitle", "快照差异：{1}")
    ∷ ("snapshots.filesChanged", "{1} 个文件已变更")
    ∷ ("snapshots.restoreConfirm", "恢复此快照吗？当前配置将被替换。")
    ∷ ("toast.restored", "恢复完成")
    ∷ ("snapshots.restoreFailed", "恢复失败：{1}")
    ∷ ("if.up", "已连接")
    ∷ ("if.down", "未连接")
    ∷ []
