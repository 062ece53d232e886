-- ===== src/I18n/Packs/FrFr/Shell.antt =====
-- webui/assets/i18n.js, the French pack: navigation, sign-in, overview and column texts.
use Prim.Native.String.{String}
use mathlib.Core.List.{List, [], ◌∷◌}

unfoldable pub fr_fr_shell : List (String × String)
fr_fr_shell =
    ("app.tag", "Diagnostic et réparation réseau")
    ∷ ("nav.net", "Réseau")
    ∷ ("nav.tools", "Outils")
    ∷ ("nav.sys", "Système")
    ∷ ("nav.dashboard", "Tableau de bord")
    ∷ ("nav.interfaces", "Interfaces")
    ∷ ("nav.diagnose", "Diagnostic")
    ∷ ("nav.tools2", "Outils réseau")
    ∷ ("nav.monitor", "Surveillance")
    ∷ ("nav.security", "Sécurité")
    ∷ ("nav.snapshots", "Instantanés")
    ∷ ("nav.settings", "Paramètres")
    ∷ ("nav.history", "Historique")
    ∷ ("nav.logout", "Déconnexion")
    ∷ ("login.title", "Connexion à NetCheck")
    ∷ ("login.sub", "Diagnostic réseau · Connexion")
    ∷ ("login.hint", "La première utilisation lance la configuration")
    ∷ ("login.init", "Première configuration →")
    ∷ ("login.user", "Nom d'utilisateur")
    ∷ ("login.pass", "Mot de passe")
    ∷ ("login.remember", "Se souvenir de moi")
    ∷ ("login.btn", "Se connecter")
    ∷ ("login.forgot", "Mot de passe oublié ?")
    ∷ ("init.title", "Créer le compte")
    ∷ ("init.sub", "Première utilisation — définir le compte admin")
    ∷ ("init.confirm", "Confirmer le mot de passe")
    ∷ ("init.hint", "Mot de passe : 8 caractères min. avec lettres et chiffres")
    ∷ ("init.btn", "Terminer")
    ∷ ("dash.title", "Aperçu réseau")
    ∷ ("dash.health", "Santé globale")
    ∷ ("dash.refresh", "Actualiser")
    ∷ ("dash.diagBtn", "Lancer le test")
    ∷ ("dash.connectivity", "Connectivité")
    ∷ ("dash.issues", "Problèmes ouverts")
    ∷ ("dash.nics", "Interfaces")
    ∷ ("dash.traffic", "Trafic en direct")
    ∷ ("dash.viewAll", "Tout voir")
    ∷ ("light.gateway", "Passerelle")
    ∷ ("light.internet", "Internet")
    ∷ ("light.dns", "DNS")
    ∷ ("light.ipv6", "IPv6")
    ∷ ("if.title", "Toutes les interfaces")
    ∷ ("if.sub", "Double architecture")
    ∷ ("if.scan", "Relancer le scan")
    ∷ ("diag.title", "Diagnostic réseau")
    ∷ ("diag.sub", "9 groupes · A–I")
    ∷ ("diag.run", "Test complet")
    ∷ ("diag.running", "En cours…")
    ∷ ("diag.export", "Exporter le rapport")
    ∷ ("btn.fix", "Corriger")
    ∷ ("btn.guide", "Guide")
    ∷ ("btn.close", "Fermer")
    ∷ ("btn.cancel", "Annuler")
    ∷ ("fix.title", "Assistant de réparation")
    ∷ ("fix.steps", "Sauvegarder,Exécuter,Vérifier,Journaliser")
    ∷ ("fix.confirm", "Je comprends les risques et confirme")
    ∷ ("fix.run", "Confirmer")
    ∷ ("fix.ok", "Succès")
    ∷ ("fix.fail", "Échec")
    ∷ ("fix.rolled", "Annulé automatiquement")
    ∷ ("set.title", "Paramètres")
    ∷ ("set.lang", "Langue")
    ∷ ("set.theme", "Thème")
    ∷ ("set.repair", "Mode de réparation")
    ∷ ("set.autoDiag", "Tests planifiés")
    ∷ ("set.save", "Enregistrer")
    ∷ ("set.saved", "Enregistré")
    ∷ ("about.version", "Version")
    ∷ ("about.check", "Vérifier MAJ")
    ∷ ("hist.title", "Historique")
    ∷ ("hist.fix", "Historique des réparations")
    ∷ ("st.pass", "OK")
    ∷ ("st.warn", "Alerte")
    ∷ ("st.fail", "Échec")
    ∷ ("st.na", "N/D")
    ∷ ("toast.login.ok", "Connecté")
    ∷ ("toast.saved", "Paramètres enregistrés")
    ∷ ("toast.fixing", "Réparation en cours")
    ∷ ("col.iface", "Interface")
    ∷ ("col.type", "Type")
    ∷ ("col.state", "État")
    ∷ ("col.speed", "Débit de liaison")
    ∷ ("col.mode", "Mode")
    ∷ ("nav.forgot", "Mot de passe oublié")
    ∷ []
