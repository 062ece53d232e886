-- ===== src/I18n/Packs/FrFr/Checks.antt =====
-- webui/assets/i18n.js, the French pack: about page, check names and later history, monitor and snapshot texts.
use Prim.Native.String.{String}
use mathlib.Core.List.{List, [], ◌∷◌}

unfoldable pub fr_fr_checks : List (String × String)
fr_fr_checks =
    ("nav.about", "À propos")
    ∷ ("about.title", "À propos")
    ∷ ("about.app", "Nom de l’app")
    ∷ ("about.developer", "Développeur")
    ∷ ("about.publisher", "Éditeur")
    ∷ (
      "about.intro",
      "NetCheck diagnostique et répare les problèmes réseau de TOS 7. Il inspecte les interfaces, isole les pannes de connectivité, vérifie DNS, TNAS.online et DDNS, mesure la bande passante et conserve l’historique pour situer un incident sur le NAS, le LAN ou Internet.",
    )
    ∷ ("about.modules", "Guide des modules")
    ∷ (
      "about.dashboard",
      "Résume le score de santé, les problèmes ouverts, les voyants et les points clés des interfaces afin d’évaluer l’état général du réseau et de lancer un diagnostic complet.\nÉtapes : ouvrez le module, vérifiez les données actuelles, exécutez l’action principale, puis comparez avec l’état précédent.",
    )
    ∷ (
      "about.interfaces",
      "Liste toutes les interfaces physiques, virtuelles, OVS et tunnels avec adresses, vitesse, mode, MAC et autres faits d’exécution. Sélectionnez une ligne pour les détails.\nÉtapes : ouvrez le module, vérifiez les données actuelles, exécutez l’action principale, puis comparez avec l’état précédent.\nL’interface loopback du système est masquée : elle est interne et ne constitue pas un chemin LAN/WAN.\nLe débit de liaison est négocié par la carte réseau et représente une capacité théorique, pas un débit mesuré. Utilisez un test de bande passante pour le débit réel.",
    )
    ∷ (
      "about.diagnose",
      "Exécute la suite complète de contrôles et regroupe les résultats : réussite, avertissement, échec ou non applicable. Exportez un rapport ou suivez la réparation guidée.\nÉtapes : ouvrez le module, vérifiez les données actuelles, exécutez l’action principale, puis comparez avec l’état précédent.",
    )
    ∷ (
      "about.tools",
      "Fournit découverte d’appareils, tests de ports, traceroute et comparaison DNS pour vérifier l’accessibilité, localiser les ruptures et analyser les différences de résolution.\nÉtapes : ouvrez le module, vérifiez les données actuelles, exécutez l’action principale, puis comparez avec l’état précédent.",
    )
    ∷ (
      "about.monitor",
      "Échantillonne régulièrement latence et perte de paquets de la passerelle, conserve tendances et alertes. Utile pour ralentissements intermittents et liens instables.\nÉtapes : ouvrez le module, vérifiez les données actuelles, exécutez l’action principale, puis comparez avec l’état précédent.\nSuspendez ou reprenez la surveillance continue depuis l’en-tête Surveillance. « Mesurer maintenant » reste disponible pendant la suspension.",
    )
    ∷ (
      "about.security",
      "Vérifie le pare-feu, l’exposition des ports en écoute et les services plus risqués, et affiche l’état du tunnel distant pour examiner la surface d’attaque.\nÉtapes : ouvrez le module, vérifiez les données actuelles, exécutez l’action principale, puis comparez avec l’état précédent.",
    )
    ∷ (
      "about.snapshots",
      "Enregistre des instantanés de configuration réseau, compare les différences et permet un rollback avant ou après réparation comme filet de sécurité.\nÉtapes : ouvrez le module, vérifiez les données actuelles, exécutez l’action principale, puis comparez avec l’état précédent.",
    )
    ∷ (
      "about.history",
      "Centralise les historiques de diagnostic et de réparation pour suivre évolution du score, échecs, actions exécutées et durées lors du bilan.\nÉtapes : ouvrez le module, vérifiez les données actuelles, exécutez l’action principale, puis comparez avec l’état précédent.\nGestion : supprimez un enregistrement avec « Supprimer », ou utilisez « Tout effacer » après confirmation. Ces actions n’effacent pas le journal de sécurité.\nChaque ligne permet de télécharger le journal de diagnostic ou de réparation conservé à ce moment.",
    )
    ∷ (
      "about.settings",
      "Configure langue, thème, autorisations de réparation, contrôles planifiés et préférences associées. La page À propos affiche version et informations de développement.\nÉtapes : ouvrez le module, vérifiez les données actuelles, exécutez l’action principale, puis comparez avec l’état précédent.",
    )
    ∷ (
      "about.modulesHint",
      "Sélectionnez un module pour afficher sa description détaillée et ses étapes. Resélectionnez-le pour le réduire. Les textes longs passent à la ligne indépendamment.",
    )
    ∷ (
      "about.aboutGuide",
      "Consultez le nom, la version, l’architecture, le développeur et l’éditeur de l’application. Commencez ici pour confirmer la version installée ou examiner une mise à niveau. Dépliez les modules pour les cas d’usage et les étapes.",
    )
    ∷ ("fix.dnsServers", "Serveurs DNS (séparés par des virgules)")
    ∷ ("fix.gateway", "Adresse de passerelle")
    ∷ ("fix.dnsRequired", "Saisissez au moins un serveur DNS")
    ∷ ("fix.gatewayRequired", "Saisissez l’adresse de la passerelle")
    ∷ ("check.link-state", "État de la liaison")
    ∷ ("check.link-speed", "Débit de liaison")
    ∷ ("check.link-duplex", "Mode duplex")
    ∷ ("check.link-errors", "Erreurs de liaison")
    ∷ ("check.ipv4-addr", "Adresse IPv4")
    ∷ ("check.ipv4-mask", "Masque IPv4")
    ∷ ("check.dhcp-lease", "Bail DHCP")
    ∷ ("check.gateway-subnet", "Passerelle du sous-réseau")
    ∷ ("check.gateway-reach", "Passerelle joignable")
    ∷ ("check.ip-conflict", "Conflit IP")
    ∷ ("check.default-route", "Route par défaut")
    ∷ ("check.connected-routes", "Routes connectées")
    ∷ ("check.dns-config", "Configuration DNS")
    ∷ ("check.dns-reachable", "DNS joignable")
    ∷ ("check.dns-resolve", "Résolution DNS")
    ∷ ("check.ipv6-global-addr", "Adresse IPv6 globale")
    ∷ ("check.ipv6-default-route", "Route IPv6 par défaut")
    ∷ ("check.ipv6-dns", "DNS IPv6")
    ∷ ("check.ipv6-reach", "IPv6 joignable")
    ∷ ("check.wan-ping", "Ping WAN")
    ∷ ("check.wan-tcp", "TCP/HTTPS WAN")
    ∷ ("check.proxy-firewall", "Proxy/Pare-feu")
    ∷ ("check.mtu-probe", "Test MTU")
    ∷ ("check.system-time", "Heure système")
    ∷ ("check.conn-exhaust", "Épuisement des connexions")
    ∷ ("check.tos-update-server", "Serveur de mise à jour TOS")
    ∷ ("check.tos-market", "Boutique d'applications TOS")
    ∷ ("check.tnas-online", "TNAS.online")
    ∷ ("check.ddns", "DDNS")
    ∷ ("check.ntp-server", "Serveur NTP")
    ∷ ("check.smb-service", "Service SMB")
    ∷ ("check.nfs-service", "Service NFS")
    ∷ ("check.bond-lacp", "Agrégation de liens (LACP)")
    ∷ ("check.bond-throughput", "Débit d'agrégation")
    ∷ ("check.smb-multichannel", "SMB Multicanal")
    ∷ ("fix.pending", "Réparation envoyée ; synchronisation NTP en cours")
    ∷ ("history.actions", "Actions")
    ∷ ("history.delete", "Supprimer")
    ∷ ("history.clear", "Tout effacer")
    ∷ ("history.deleteTitle", "Supprimer cet enregistrement ?")
    ∷ (
      "history.deleteMessage",
      "Cet enregistrement sera retiré de l’historique. Le journal des opérations reste inchangé.",
    )
    ∷ ("history.clearTitle", "Effacer tout l’historique ?")
    ∷ (
      "history.clearMessage",
      "Tous les historiques de diagnostic et de réparation seront supprimés. Le journal des opérations reste inchangé.",
    )
    ∷ ("history.deleted", "Enregistrement supprimé")
    ∷ ("history.cleared", "Historique effacé")
    ∷ ("history.download", "Télécharger")
    ∷ ("history.downloaded", "Historique téléchargé")
    ∷ ("history.downloadFailed", "Impossible de télécharger l’historique")
    ∷ ("monitor.sampling", "Mesure…")
    ∷ (
      "monitor.samplingMessage",
      "Mesure de la qualité de la passerelle et d’Internet. Les résultats s’actualiseront automatiquement à la fin.",
    )
    ∷ ("monitor.noRttSamples", "Aucune valeur RTT de passerelle dans la période sélectionnée.")
    ∷ ("monitor.rttAria", "Tendance RTT passerelle : {1} échantillons, 0–{2} ms")
    ∷ ("monitor.pause", "Suspendre la surveillance")
    ∷ ("monitor.resume", "Reprendre la surveillance")
    ∷ (
      "monitor.pausedMessage",
      "La surveillance continue est suspendue. « Mesurer maintenant » reste disponible pour une mesure manuelle.",
    )
    ∷ (
      "monitor.enabledMessage",
      "Surveillance continue activée ; mesure automatique toutes les {1} minutes.",
    )
    ∷ ("monitor.days1", "Dernier 1 jour")
    ∷ ("security.tunnelConnected", "Connecté")
    ∷ ("security.tunnelDisconnected", "Non connecté")
    ∷ ("security.tunnelNoIp", "Aucune adresse IP")
    ∷ ("snapshots.sourceManual", "Manuel")
    ∷ ("snapshots.sourceManualUI", "Manuel depuis l’interface web")
    ∷ ("snapshots.sourcePreReset", "Sauvegarde avant réinitialisation")
    ∷ ("snapshots.sourceAuto", "Automatique")
    ∷ ("snapshots.noNote", "Aucune note")
    ∷ []
