-- ===== src/Lib.antt =====
-- service-discover: the daemon, the command line tools and the packages that they share.
--
-- The daemon (cmd/service-discoverd) reads localconfig.xml (pkg/carbonio/localconfig.go), drops its
-- privileges, asks LDAP (pkg/carbonio/ldap.go) for the servers, adds a port to main.json and becomes
-- consul. The tools set a server or an agent up, manage the ACL tokens of services, and read and
-- write the cluster credential, an encrypted archive (pkg/encrypter): the setup of the first server
-- writes it and uploads it to LDAP, the setups of further servers and of agents read it.
--
-- World.antt is what the code calls outside itself, one constructor for each call; an environment
-- answers every call from the calls made before. Prog.antt is a Go function that makes such calls:
-- it returns, fails with an error, or panics, and leaves the history of its calls. Prog/Emits,
-- Prog/Ends and Prog/Triple are the rules for the calls a program makes, for the ways it ends and
-- for what it does to a predicate of the history. Prog/Order is what
-- has to happen before what in a history, and Prog/Files reads the contents of the files off it.
-- Steps has the calls of the steps that the setups share, and Steps/Temps the temporary files of a
-- run and their removal.
--
-- Which file models which part:
--   Daemon             cmd/service-discoverd/service-discoverd.go: `runServiceDiscoverDaemon` is
--                      run_daemon, its steps are daemon_steps
--   Carbonio           pkg/carbonio: localconfig.go in LocalConfig, ldap.go in Ldap
--   Encrypter          pkg/encrypter: reader.go in Reader, where the slices of `ReadFiles` are an array
--                      and a length, and writer.go in Writer
--   Agent              cmd/agent/command/setup: setup.go and wizard.go; Consul's configuration is in
--                      Config
--   Server             cmd/server/command/setup: common.go in Server, Config and Run, wizard.go
--                      in Run, firstsetup.go in FirstSetup, Leader, Bootstrap, Archive and Start,
--                      importsetup.go in ImportSetup
--   Command            pkg/command/common.go in Network, Credentials, TokenCreation and AclToken;
--                      pkg/command/service_token.go in ServiceToken, TokenFile and HostNames,
--                      config.go in Config, bootstrap_token.go in BootstrapToken, version.go and
--                      help_unix.go in Version
--   Cli                cmd/agent/agent.go and cmd/server/server.go, and the constructors of
--                      pkg/command/command.go, which are in Command/New
--   Term, Parser, Permissions, Exec, Systemd, Formatter     the packages of these names under pkg
--   Errors, Number, Text, Json, FilePath      what the code uses of the Go library
--   Examples           the theorems at concrete inputs
--
-- Fuel: three loops wait for a time that is the environment's, so their models take the number of
-- rounds; running out of them is a panic that the code does not have. For `CreateACLToken`, whose
-- deadline comes after 30 waits of a second, 31 rounds are enough; for `waitForConsulLeader`, which
-- sleeps 250 milliseconds and gives up after a minute, 242; for `createACLBootstrapToken`, with a
-- tick each 250 milliseconds and 30 seconds, 121. The goroutine of the last is a loop that the
-- environment can end at each step; Bootstrap/Interleaving has the goroutine beside the `select`
-- as a step relation, without fuel.
--
-- Parameters: the XML parser, the text of JSON trees, base64, the uuid library, the quoting of
-- html/template, and the order in which Go ranges over a map. Cli takes the kong
-- library as three: the parse of the arguments, its validation and the end on an error.
--
-- An exec is a call that answers, as it is through the interfaces of the code and in its tests: that
-- a process is replaced, and makes no further call, is not a way to end that the model has. What
-- encoding/json says of a value of a wrong type is an error without the name of the type.
--
-- Not modelled: the generated mocks and the packaging.
pub mod Agent
pub mod Carbonio
pub mod Cli
pub mod Command
pub mod Common
pub mod Daemon
pub mod Encrypter
pub mod Errors
pub mod Examples
pub mod Exec
pub mod FilePath
pub mod Formatter
pub mod Json
pub mod Number
pub mod Parser
pub mod Permissions
pub mod Prog
pub mod Server
pub mod Steps
pub mod Systemd
pub mod Term
pub mod Text
pub mod World
