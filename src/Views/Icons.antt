-- ===== src/Views/Icons.antt =====
-- webui/assets/app.js, `NAV_ICONS`.
use netcheck.Common.{List, [], ◌∷◌, String}

unfoldable pub nav_icons : List (String × String)
nav_icons =
    (
      "dashboard",
      "<rect x=\"3.5\" y=\"3.5\" width=\"7\" height=\"7\" rx=\"2\"/><rect x=\"13.5\" y=\"3.5\" width=\"7\" height=\"7\" rx=\"2\"/><rect x=\"3.5\" y=\"13.5\" width=\"7\" height=\"7\" rx=\"2\"/><rect x=\"13.5\" y=\"13.5\" width=\"7\" height=\"7\" rx=\"2\"/>",
    )
    ∷ (
      "interfaces",
      "<rect x=\"3\" y=\"7\" width=\"18\" height=\"10\" rx=\"3\"/><path d=\"M7.5 10.5v3\"/><path d=\"M12 10.5v3\"/><path d=\"M16.5 10.5v3\"/>",
    )
    ∷ ("diagnose", "<path d=\"M3.5 12h3.2l2.3-5.5 3.7 11 2.3-5.5h5.5\"/>")
    ∷ (
      "tools",
      "<rect x=\"3\" y=\"8\" width=\"18\" height=\"12\" rx=\"2.5\"/><path d=\"M8.5 8V6.5A2.5 2.5 0 0 1 11 4h2a2.5 2.5 0 0 1 2.5 2.5V8\"/><path d=\"M3 13h18\"/>",
    )
    ∷ (
      "monitor",
      "<path d=\"M4.5 19.5v-6\"/><path d=\"M9.5 19.5v-11\"/><path d=\"M14.5 19.5v-7\"/><path d=\"M19.5 19.5V9\"/>",
    )
    ∷ (
      "security",
      "<path d=\"M12 3.6 19.2 6v5.4c0 4.2-2.9 7.4-7.2 9-4.3-1.6-7.2-4.8-7.2-9V6L12 3.6Z\"/><path d=\"m9.2 11.7 2 2 3.6-3.8\"/>",
    )
    ∷ (
      "snapshots",
      "<path d=\"M12 3.7 20.5 8 12 12.3 3.5 8 12 3.7Z\"/><path d=\"m3.5 12.2 8.5 4.3 8.5-4.3\"/><path d=\"m3.5 16.3 8.5 4.2 8.5-4.2\"/>",
    )
    ∷ ("history", "<circle cx=\"12\" cy=\"12\" r=\"8.2\"/><path d=\"M12 7.7V12l3 2\"/>")
    ∷ (
      "settings",
      "<path d=\"M10.4 3.3h3.2l.4 2.1 1.9.8 1.8-1.1 1.5 1.5-1.1 1.8.8 1.9 2.1.4v3.2l-2.1.4-.8 1.9 1.1 1.8-1.5 1.5-1.8-1.1-1.9.8-.4 2.1h-3.2l-.4-2.1-1.9-.8-1.8 1.1-1.5-1.5 1.1-1.8-.8-1.9-2.1-.4v-3.2l2.1-.4.8-1.9-1.1-1.8 1.5-1.5 1.8 1.1 1.9-.8.4-2.1Z\"/><circle cx=\"12\" cy=\"12\" r=\"2.9\"/>",
    )
    ∷ (
      "about",
      "<circle cx=\"12\" cy=\"12\" r=\"8.4\"/><path d=\"M12 11v5\"/><path d=\"M12 7.8v.2\"/>",
    )
    ∷ (
      "logout",
      "<path d=\"M14 4h4.5A1.5 1.5 0 0 1 20 5.5v13a1.5 1.5 0 0 1-1.5 1.5H14\"/><path d=\"m10 8 4 4-4 4\"/><path d=\"M14 12H4\"/>",
    )
    ∷ []
