-- ===== src/Lib.antt =====
-- The web interface of NetCheck (webui/assets): a page without a framework that asks the backend
-- behind the TOS proxy for its data, draws one view at a time into the document, and translates
-- everything it shows into 23 languages. What is modelled: the requests, the session with its router and
-- its sign-in form, the language packs and the messages, the translation of the diagnosis texts, the
-- templates of the views with the escaping of what is put into them, the repair wizard, the run of a
-- diagnosis, the history, the monitor with its chart, the clipboard, and the two scripts that check and
-- patch the packs.
--
-- How the parts interact. boot asks for the account status through API.request, decides between the
-- sign-in page, the first-use form and the dashboard, and hands over to the router. The router shows
-- the view of the address that the token allows. Views take their texts from t, put the backend's
-- English diagnosis texts through translateDiagText, and texts through esc. The repair wizard
-- collects a form, sends it by API.request, and waits; so do the sign-in form, the run of a diagnosis and
-- the monitor. What waits for an answer is part of their state, and answers come in any order.
--
-- Which file models what. Types and functions keep the source's names, in the spelling of this
-- language (translateDiagText is translate_diag_text).
--   Common, Common/*       lists, texts as lists of code points, and the JavaScript string operations
--   I18n/Catalog           webui/assets/i18n.js, t: a pack is a list of keys with messages
--   I18n/Packs, Packs/*    webui/assets/i18n.js, I18N: the English, German, French and simplified
--                          Chinese packs, message by message; a pack in six files by its topics
--   I18n/Locales           webui/assets/i18n.js, LOCALES and LANG_VARIANTS, complete
--   I18n/Browser           webui/assets/i18n.js, resolveBrowserLang
--   I18n/Direction         webui/assets/i18n.js, from curLang to setLang without t, statement by
--                          statement, with a const that is read before it is initialised as none
--   Diag/Tables, Rules     webui/assets/app.js, the three tables and the if statements of
--                          translateDiagText, as data
--   Diag/Pattern           the regular expressions of those statements, with greedy backtracking
--   Diag/Translate         webui/assets/app.js, translateProxyLabel and translateDiagText
--   Diag/Labels            webui/assets/app.js, checkName
--   Diag/Run               webui/assets/app.js, runDiag; the answers to its questions are a sequence
--   Html                   webui/assets/app.js, esc and the handler of the guide button
--   Html/Template          the template literals of webui/assets/app.js: what one renders to, and the
--                          contexts of the HTML tokenizer that its texts and values stand in
--   Views                  webui/assets/app.js, the templates of the views, the modals and the areas that
--                          handlers fill, piece by piece; an interpolation is named by its expression
--   Json, Api              webui/assets/api.js, readCookie, proxyError and API.request, from the answer
--                          of fetch on; JSON values are a data type
--   App                    webui/assets/app.js, the parts of state that the session and the router use
--   App/Router             webui/assets/app.js, nav, route and render; a hashchange event is counted
--                          when it is queued and delivered as a step of its own
--   App/Boot               webui/assets/app.js, boot, retryBoot, doLogout and the loaders; a function is
--                          cut at its await, and each part takes the answer
--   App/Login              webui/assets/app.js, doLogin and tickLockout; a timer is counted when it is set
--   Monitor                webui/assets/app.js, setMonitorRange, toggleMonitor, doMonitorSample, loadMonitor
--   Chart                  webui/assets/app.js, niceRttMax and rttTrendChart but for its texts
--   Clipboard              webui/assets/clipboard.js; what the browser does is an argument
--   History                webui/assets/app.js, loadHistory and the handlers that delete from the history
--   PackTools              webui/tools/check_i18n.js and patch_compliance_i18n.js, from the packs that they
--                          read to the problems or the packs that they write
--   Fix/Wizard             webui/assets/app.js, openFix, closeFix and doFix, cut at its await; the
--                          requests that wait are a list, and an answer is one to any of them
--   Fix/Messages           webui/assets/app.js, translateFixMessage and translateGuideLine
--   Fix/Gateway            webui/assets/app.js, suggestedGateway; its 32-bit operators are recursion on
--                          the 32 digits, and Number reads decimal digits only
--
-- The children of a module hold its theorems and are named for what they are about; the modules Tests
-- hold runs at concrete inputs.
--
-- Bounds and fuel. Every function is structural recursion on a list or a number but match_run, which
-- recurses on the text while a count goes down, and decimal, which takes one more than the number that
-- it prints as its fuel, so it does not run out; grow_power of the chart has as much fuel as the number
-- that it stays below, and the bounds of its result are proved. The 120 rounds of runDiag are the
-- source's. Nothing needs fuel from a caller. Numbers are natural numbers, but in the chart integers,
-- over the same natural numbers. A JSON number that is no natural number is kept as its text.
--
-- Parameters. The decoder of cookie values, the messages that boot takes from t, and the parsed JSON of
-- an answer are arguments: decodeURIComponent and JSON.parse are the browser's. So are what Number makes
-- of a text or of a number that is kept as one, what a JSON value times 1000 is, NaN included, the
-- answers of the clipboard, and the time.
--
-- What differs. Texts are sliced by code points and not by UTF-16 units. toLowerCase is modelled on the
-- ASCII letters. A table is searched for its own keys, so the names that every JavaScript object
-- inherits are left out. Nineteen of the 23 packs are not modelled, so in their languages the catalog
-- falls back on English.
--
-- The chart is in exact arithmetic where the source has binary fractions. What a view computes before
-- its template is the template's environment.
--
-- What is not modelled. The styles; the handlers of the snapshots, of the tools' forms, of the first-use
-- form and of the reset of the password; the downloads; the files that the tools of webui/tools read and
-- write; tools and release, which build and check the package; the Python backend under lib and the
-- collector under bpfcollector, which stand behind the requests.
pub mod Common
pub mod I18n
pub mod Diag
pub mod Html
pub mod Views
pub mod Json
pub mod Api
pub mod App
pub mod Fix
pub mod Monitor
pub mod Chart
pub mod Clipboard
pub mod PackTools
pub mod History
