-- ===== src/Lib.antt =====
-- Director: the manager of a hosting service for web sites.
--
-- The program. The manager (manager/director, a Django project) keeps sites, domains, databases and
-- users in tables. A change to a site is an operation: a row, of which a site has at most one, and a
-- task in a queue. A worker runs the task as a list of actions, most of which send requests to the
-- appservers and the balancers; these run the orchestrator (orchestrator/) and the router (router/),
-- which edit files, Docker services, Nginx configurations and databases. The shell server (shell/)
-- gives users a terminal in their site.
--
-- The files.
-- - Prelude: shared names. Prelude/Exec is the monad of code that changes a state and may raise: what
--   was done before the raise stays done. Prelude/Lists, Prelude/Tests, Prelude/Int and Prelude/Text
--   hold lists, tests, integers and texts over the native numbers. Prelude/Paths is what the program
--   uses of Python's posixpath, on lists of characters, with its laws in Prelude/Paths/Laws and
--   Prelude/Paths/Common.
-- - Http: what urllib and random offer, as a record `World` over any state. Nothing is assumed of the
--   answers, and an exception that no handler of appserver.py names is `uncaught`; `IsFair` says that
--   `randint` stays within its bound.
-- - Appserver: manager/director/utils/appserver.py. Appserver/Requests has `get_appserver_addr`,
--   `appserver_open_http_request` and the URL of `appserver_open_websocket`; Appserver/Pings has
--   `ping_appserver` and the two iterators, each as the list that it gives; Appserver/Laws and
--   Appserver/Pinged the proofs.
-- - Balancer: manager/director/utils/balancer.py, as instances of Appserver.
-- - Pagination: manager/director/utils/pagination.py, `paginate` in parts that follow the source.
--   Pagination/Links and Pagination/Items have the proofs. Django's paginator is a record with its
--   documented laws (`IsPaginator`).
-- - Sites: manager/director/apps/sites. Sites/Models, Sites/Access, Sites/Limits, Sites/Images,
--   Sites/Status and Sites/Serialize are models.py; Sites/Names is utils/site_names.py and
--   `Site.clean`; Sites/Operations is operations.py; Sites/Wrapper is helpers.py; Sites/Actions
--   (Base, Nginx, Docker, Stores) is actions.py; Sites/Tasks (Edits, Domains, Steps) is tasks.py.
--   Sites/Consumers is `SiteConsumer` of consumers.py, as a function `handle` of what Channels calls
--   and of the rows of the database; Sites/Consumers/Watching is `SiteMonitorConsumer`, whose
--   coroutines take turns at the points where they wait.
--   Sites/Operations/Laws, Sites/Wrapper/Progress, Sites/Actions/Recovery, Sites/Tasks/Claims,
--   Sites/Tasks/Outcomes, Sites/Consumers/Exposure, Sites/Consumers/Secrets,
--   Sites/Consumers/Delivery, Sites/Consumers/Losses and Sites/Consumers/Replay have the proofs.
-- - Docs: manager/director/apps/docs. Docs itself has `url_to_path` and `find_static_file` of
--   utils.py; Docs/Links the rewriting of links; Docs/Page is `load_doc_page`, over the disk as a
--   record `Disk` and Django's cache as a record `Cache`; Docs/View is `doc_page_view` of views.py.
--   Docs/Urls, Docs/Complete, Docs/Fresh and Docs/History have the proofs; `Step` of Docs/History is
--   a load of a page, which takes time, or a change of the disk, the cache or the time. That no file is
--   edited during a load is a condition there; Docs/Tests has the run that shows it is needed.
-- - Request: manager/director/apps/request, the form and the views over the table of requests.
--   Request/Rows, Request/Frame and Request/History have the proofs.
-- - Router: router/router, the pages of app.py with nginx.py and certbot.py. Router/Values is what these
--   do to any JSON that a request may hold, with Python's `set`, `for` and `join`; Router/Frame has the
--   proofs.
-- - Helper: orchestrator/helpers/files-helper.py. Helper/Mode is `get_new_mode`; Helper/Commands has
--   the commands that change names, modes and directories, over the calls of `os` and `shutil` as a
--   record `Os` over any state. Helper/Main is `main`, from its table of commands on. Helper/Modes,
--   Helper/Safety and Helper/Dispatch have the proofs.
-- - Orchestrator: orchestrator/orchestrator. Orchestrator/Files has the functions of files.py
--   that change files: each starts the helper, that is Helper/Main and then the command of
--   Helper/Commands, and raises what the end of the process says, or what `subprocess.Popen` raises
--   where the process cannot be started (`refuses`). Orchestrator/FilePages has the
--   pages of views/files.py over these functions, and Orchestrator/Download the download of a file,
--   from `get_file_page` of views/files.py to `get_cmd` of the helper. Orchestrator/Monitor is what
--   `SiteFilesMonitor` of files.py writes and `monitor_cmd` of the helper reads.
--   Orchestrator/Docker is docker/shared.py (Params) and docker/services.py (Services), over
--   Docker's client and the clock as a record `Client`. Orchestrator/Nginx is configs/nginx.py,
--   over a disk as a record `Disk`; Orchestrator/Database is database.py, over a cursor of the
--   administrator as a record `Cursor`. Orchestrator/Directories, Orchestrator/FileErrors,
--   Orchestrator/Monitor/Lines, Orchestrator/Monitor/Protocol, Orchestrator/Docker/Waiting,
--   Orchestrator/Docker/Updates, Orchestrator/Nginx/Backups and Orchestrator/Database/Effects
--   have the proofs.
-- - Shell: shell/shell/server.py. Shell/Auth is how `ShellSSHServer` lets users in; Shell/Session is
--   `ShellSSHServerSession` as a function `step` of events, with the coroutine `setup_connection`
--   as a part of the state, and the sessions that can be reached; Shell/Connect is the search for an
--   appserver. Shell/Admission, Shell/Bounds, Shell/Typing, Shell/Setup, Shell/Invariant and
--   Shell/Selection have the proofs.
-- - Crypto: shared/directorutil/crypto.py, over pycryptodome as a record `Library`. Crypto/Roundtrip
--   and Crypto/Signatures have the proofs, under the documented laws of that library.
-- - The modules Tests, TaskTests and Samples hold runs and the theorems at concrete inputs.
--
-- How state and effects are modelled. A callback of an action is a generator in the source. Here it is
-- given the body of the loop in `run_action`, and does with each item what the loop does (`Callback`).
-- The state of an action (`Manager`) is the row of its site, the names of the other sites, the rows of
-- the domains, the entry of the scope that the actions share, and the state of the network. The queue
-- of Celery and the groups of Channels are lists. A request that fails leaves the state as the network
-- left it. The requests that `reload_nginx_on_appservers` sends from threads are sent in the order of
-- the list.
--
-- Bounds. Nearly all recursion is structural, over the lists that the loops run through. Three loops
-- have fuel: the wait for Nginx in Orchestrator/Docker has a round for each unit of the timeout and one
-- more, the search for an appserver in Shell/Connect a round for each host, and the loop over the lines
-- in Orchestrator/Monitor a round for each byte; each is proved to end by itself. The times of a
-- clock are whole numbers of a unit. Python's integers have no bound, and neither have the numbers
-- here. The float `cpus` is counted in thousandths.
--
-- What is not modelled. The decoding of bodies by charset, TLS, and logging are left out. JSON,
-- the encoding of URLs, UTF-8, regular expressions and templates are parameters, as is everything
-- that Django, Celery, Channels, urllib, Docker, asyncssh, pycryptodome and the database servers
-- do. Of the helper, the umask and the limit of the memory
-- that `main` sets, the commands that stream (ls, write, download-zip) and the watches of
-- the monitor are not modelled, and neither are the functions of files.py that run them; of the
-- services, the limits of CPU and memory and what is the same for every site; of the databases,
-- the connections, `mysql_clean_identifier` and `run_single_query`. What the shell server writes
-- to the terminal, the frames of its main loop and its listener are left out. Of the consumers of
-- the sites, those of the terminal, of the logs and of several sites at once; of the documentation,
-- titles, the list of all pages and the search; the views and forms of the sites, the accounts and
-- the tokens of the shell, the images and the registry of Docker, and the other views and the
-- websockets of the orchestrator are not modelled; neither are settings, migrations, templates, static files and
-- vendored code. Markdown, the cleaning of HTML and the texts of messages and mails are left to
-- parameters, or left out.
pub mod Prelude
pub mod Http
pub mod Appserver
pub mod Balancer
pub mod Router
pub mod Pagination
pub mod Crypto
pub mod Docs
pub mod Helper
pub mod Request
pub mod Shell
pub mod Orchestrator
pub mod Sites
