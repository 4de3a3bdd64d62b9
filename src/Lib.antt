-- ===== src/Lib.antt =====
-- RoostOS: the router's access control, alerts and cluster, modelled and verified.
--
-- The program is the engine of a home router. Its daemon reads a configuration (people, devices,
-- schedules, networks, zones), compiles it to an nftables ruleset, and once a minute decides which
-- devices a bedtime or a daily limit blocks; it gives these decisions to the kernel as nft commands.
-- Beside that it watches metrics and tells the household of alerts, and joins other routers to a
-- cluster with one controller. Paths are from the root of the
-- repository; the engine is roostos-engine/src/roostos_engine/, which is left out below.
--
--   Models     models/*.py: the sections of the configuration, as records; a field that nothing
--              modelled here reads is left out of SystemSettings, PluginConfig, NetworkInterface,
--              NetworkSettings, SystemDnsConfig, ClusterSettingsConfig and RoostConfig.
--   Mac        models/devices.py, DeviceConfig.normalize_mac.
--   Selectors  models/__init__.py, RoostConfig: the check of the references between sections, and the
--              devices that a selector stands for.
--   Schedule   scheduler.py: whether a schedule is active, and its devices. A time is a number of
--              microseconds since the start of a day 0, the one before a Monday.
--   Allowance  daemon/allowance_tracker.py: the minute check, bypasses and screen time, with the
--              block commands of firewall_manager.py. The tracker is a record that each step takes
--              and returns; a ValueError is an error result beside the state reached so far.
--   Firewall   firewall_manager.py: routing marks, routing commands and the ruleset, first as a list
--              of typed lines (Firewall.Ruleset), then as text (render, compile_ruleset).
--   Notify     notifications.py: channels and the requests posted to them.
--   Alerts     alert_manager.py: rounds of the alert rules, acknowledgement and history. An alert is
--              an object in a store, which the active alerts and the history share by its place.
--   Nodes      models/node.py: the nodes of a cluster.
--   Cluster    cluster_manager.py: join tokens, heartbeats, registrations and command queues of the
--              controller, and histories of calls on them.
--   Failover   cluster_sync.py: the loop in which a worker follows its controller and, when it is
--              gone, takes its place. Each round takes what the controller answers as an argument.
--   Upnp       daemon/upnp_handler.py and the tables of state_db.py: requests for ports, approvals
--              and rejections; the database answers every statement, as its SQL says.
--   Identity   identity_manager.py: the accounts of the domain, their state file and histories of calls.
--   Auth       roostos-web/src/roostos_web/auth.py: authorization codes, access tokens, the session of
--              a request and what the roles and scopes open.
--   AuthProviders  roostos-web/src/roostos_web/interfaces/auth.py: PAM, the accounts of the tests, the
--              domain's, and the provider that picks one of them by how a name is written.
--   ConfigFiles  models/__init__.py, load_config_directory and save_config_file: a directory is a dict
--              of texts; what a file that is missing or broken stands for, and the older forms.
--   Repository repository.py: the active, the staging and the in-memory repository.
--   Replicator cluster_replicator.py: the manifests and bundles of the files that a cluster shares.
--   ClusterService  roostos-web/src/roostos_web/services/cluster.py: joins, promotions and saves of
--              nodes over any repository with the operations that it calls; Memory is an instance.
--   Tests      a small household and the runs on it.
--   Prelude    what the parts share: Python's dicts, sets, int and texts, results, object stores.
--
-- The parts meet as in the code: the tracker asks Schedule for the active schedules and their
-- devices and takes the routing commands of Firewall. Its commands are recorded; Allowance.Kernel is a
-- kernel, a parameter, on which each of them succeeds (the effect of `nft add element`, `nft delete
-- element` and `ip` on the set blocked_clients). Alerts gives its payloads to Notify. The answers of the metrics database, the
-- posts to a channel and the floating-point operations are parameters of those parts. The staging
-- repository is stated against the one in memory, which is its specification. YAML, JSON, PyJWT,
-- pydantic's reading of fields, PAM, the accounts of the system and the directory server are
-- parameters; the records Written, IsJson, IsReader, Signs and IsRepository say what is relied on of
-- them.
--
-- Loops are structural recursion. The only fuel is that of the decimal digits of a number in
-- Prelude.Text.str, which is given one unit more than the number; a division by ten is smaller each
-- time, so it never runs out.
--
-- Texts are sequences of characters; lower and upper change the ASCII letters, which is what a MAC
-- address, a day's name and a severity are made of. Python's sets are lists without an order that
-- matters: no statement reads more of one than its members.
--
-- Not modelled: the text of log messages, the processes that run the tracker's commands and whether
-- they fail, a callback or a template of an alert rule that raises, the file that the ruleset is
-- written to, the event callback of a dispatch, and the parts of the repository outside those files
-- (the rest of the web service, the plugins, certificates, the command line, the user interface).
pub mod Prelude
pub mod Models
pub mod Mac
pub mod Schedule
pub mod Allowance
pub mod Firewall
pub mod Notify
pub mod Alerts
pub mod Nodes
pub mod Cluster
pub mod Failover
pub mod Upnp
pub mod Selectors
pub mod Identity
pub mod Auth
pub mod ConfigFiles
pub mod Repository
pub mod Replicator
pub mod ClusterService
pub mod AuthProviders
pub mod Tests
