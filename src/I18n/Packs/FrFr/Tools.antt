-- ===== src/I18n/Packs/FrFr/Tools.antt =====
-- webui/assets/i18n.js, the French pack: sign-out, recovery, tools, security and fix texts.
use Prim.Native.String.{String}
use mathlib.Core.List.{List, [], ◌∷◌}

unfoldable pub fr_fr_tools : List (String × String)
fr_fr_tools =
    ("logout.title", "Se déconnecter")
    ∷ ("logout.message", "Voulez-vous vraiment vous déconnecter de NetCheck ?")
    ∷ ("auth.rateLimited", "Trop de tentatives. Attendez une minute.")
    ∷ ("auth.loginFailed", "Échec de la connexion")
    ∷ ("auth.attemptsRemaining", "{1} tentatives restantes")
    ∷ ("auth.lockedRetry", "Compte verrouillé — réessayez dans {1}")
    ∷ ("auth.passwordMismatch", "Les mots de passe ne correspondent pas")
    ∷ ("auth.unreachable", "Impossible de contacter le backend NetCheck")
    ∷ (
      "auth.tosSession",
      "Votre session du panneau de configuration TOS a expiré. Reconnectez-vous à TOS, puis réessayez.",
    )
    ∷ ("auth.retry", "Réessayer")
    ∷ ("recovery.title", "Code de récupération")
    ∷ (
      "recovery.description",
      "Enregistrez ce code maintenant. Il n’est affiché qu’une seule fois et constitue le seul moyen de réinitialiser votre mot de passe sans accès au serveur.",
    )
    ∷ ("recovery.copy", "Copier")
    ∷ ("recovery.continue", "Je l’ai enregistré — continuer")
    ∷ (
      "forgot.sub",
      "Réinitialisez votre mot de passe avec le code de récupération créé à la configuration initiale",
    )
    ∷ ("forgot.recoveryCode", "Code de récupération")
    ∷ ("forgot.reset", "Réinitialiser le mot de passe")
    ∷ ("forgot.wrongCode", "Nom d’utilisateur ou code de récupération incorrect")
    ∷ ("forgot.resetFailed", "Échec de la réinitialisation du mot de passe")
    ∷ ("tools.sub", "Appareils · ports · traceroute · DNS")
    ∷ ("tools.deviceDiscovery", "Découverte des appareils")
    ∷ ("tools.scan", "Analyser")
    ∷ ("tools.scanHint", "Sélectionnez Analyser pour découvrir les appareils du réseau local")
    ∷ ("tools.noDevices", "Aucun appareil trouvé")
    ∷ ("tools.devicesFound", "{1} appareils trouvés")
    ∷ ("tools.conflict", "Conflit")
    ∷ ("tools.portCheck", "Vérification des ports")
    ∷ ("tools.check", "Vérifier")
    ∷ ("tools.traceroute", "Traceroute")
    ∷ ("tools.trace", "Suivre")
    ∷ ("tools.dnsCompare", "Comparaison DNS")
    ∷ ("tools.compare", "Comparer")
    ∷ ("tools.hostPortRequired", "Renseignez un hôte et un port")
    ∷ ("tools.open", "Ouvert")
    ∷ ("tools.closed", "Fermé")
    ∷ ("tools.targetRequired", "Renseignez une cible")
    ∷ ("tools.tracing", "Suivi…")
    ∷ ("tools.breakpoint", "Point d’arrêt : saut {1}")
    ∷ ("tools.domainRequired", "Renseignez un domaine")
    ∷ ("tools.possibleHijack", "Détournement possible")
    ∷ ("tools.consistent", "Cohérent")
    ∷ ("security.sub", "Pare-feu · exposition · tunnel")
    ∷ ("security.rescan", "Réanalyser")
    ∷ ("security.rescanHint", "Sélectionnez Réanalyser pour commencer")
    ∷ ("security.firewall", "Pare-feu")
    ∷ ("security.active", "Actif")
    ∷ ("security.inactive", "Inactif")
    ∷ ("security.none", "Aucun")
    ∷ ("security.exposedPorts", "Ports exposés")
    ∷ ("security.highRisk", "{1} à haut risque")
    ∷ ("security.tunnel", "Tunnel")
    ∷ ("security.listeningPorts", "Ports en écoute")
    ∷ ("security.port", "Port")
    ∷ ("security.binding", "Liaison")
    ∷ ("security.risk", "Risque")
    ∷ ("security.service", "Service")
    ∷ ("interfaces.primary", "Principal")
    ∷ ("diag.score", "Score : {1} · {2}")
    ∷ ("diag.complete", "Diagnostic terminé. Score : {1}")
    ∷ ("diag.level.healthy", "Sain")
    ∷ ("diag.level.warning", "Avertissement")
    ∷ ("diag.level.fault", "Défaillance")
    ∷ ("group.A", "Couche liaison")
    ∷ ("group.B", "IPv4")
    ∷ ("group.C", "Routes")
    ∷ ("group.D", "DNS")
    ∷ ("group.E", "IPv6")
    ∷ ("group.F", "Internet")
    ∷ ("group.G", "Autres")
    ∷ ("group.H", "Services TOS")
    ∷ ("group.I", "Transport")
    ∷ ("fix.action", "Action")
    ∷ ("fixmsg.verifyFailed", "Échec de la vérification après réparation")
    ∷ ("fixmsg.ntpPending", "Service NTP redémarré ; synchronisation en cours")
    ∷ ("fixmsg.currentlyPasses", "Le contrôle est actuellement réussi")
    ∷ ("fixmsg.notApplicable", "Contrôle non applicable")
    ∷ ("fixmsg.confirmRequired", "Confirmation requise")
    ∷ ("fixmsg.noAutoFix", "Aucune réparation automatique disponible")
    ∷ ("fixmsg.noAutoFixFor", "Aucune réparation automatique pour {1}")
    ∷ ("fixmsg.gatewayRequired", "Passerelle requise")
    ∷ ("fixmsg.failed", "Échec de la réparation")
    ∷ ("guidemsg.linkCable", "# Si le débit reste dégradé, remplacez le câble ou le port du switch")
    ∷ (
      "guidemsg.staticNoAutoSwitch",
      "Cette interface utilise une adresse statique ; NetCheck ne la basculera pas automatiquement en DHCP.",
    )
    ∷ (
      "guidemsg.staticMgmtRisk",
      "Modifier l'adresse d'un NAS peut couper l'administration à distance.",
    )
    ∷ (
      "guidemsg.staticResolve",
      "Identifiez l'appareil en double à partir du MAC affiché dans le détail du diagnostic, éteignez-le ou changez son adresse, ou attribuez une nouvelle adresse statique à ce NAS dans Panneau de configuration TOS > Réseau.",
    )
    ∷ (
      "guidemsg.dnsPersistent",
      "# Persistant : ajoutez DNS=223.5.5.5 dans [Network] du fichier 10-<if>.network, puis :",
    )
    ∷ (
      "guidemsg.tunnelRecheck",
      "Ouvrez Panneau de configuration TOS > Services réseau > Accès distant.",
    )
    ∷ ("guidemsg.tunnelSignin", "Reconnectez-vous à TNAS.online, puis relancez ce contrôle.")
    ∷ (
      "guidemsg.tunnelService",
      "S'il reste déconnecté, vérifiez l'accès à Internet et l'état des services TerraMaster.",
    )
    ∷ []
