-- ===== src/World.antt =====
-- What the program calls outside itself: the operating system, the network, LDAP, Consul, systemd,
-- the terminal and the clock. A `Call` is one such call with its arguments, `Answer` the type of
-- what it gives back, and an `Env` answers every call, knowing all the calls made before it. No
-- answer is assumed: the theorems range over all environments, or name what they need of one.
mod Values
pub use Values.*
use service_discover.Common.{ℕ, String, Bool, Option, List}
use service_discover.Errors.{Result}
use service_discover.Number.{ℤ}

pub data Call : Type 0 where
  -- the process
  getuid : Call
  getenv : String → Call
  lookup_env : String → Call
  set_env : String → String → Call
  unset_env : String → Call
  setuid : ℤ → Call
  setgid : ℤ → Call
  exec : (path : String) (args envs : List String) → Call
  exit_process : ℕ → Call
  log : String → Call
  print : String → Call
  executable : Call
  chdir : String → Call
  command_output : (name : String) (args : List String) → Call
  command_run : (name : String) (args : List String) → Call
  hostname : Call
  -- users and groups
  lookup_user : String → Call
  lookup_group : String → Call
  -- files
  stat : String → Call
  open_file : String → Call
  create_file : String → Call
  create_temp : (dir pattern : String) → Call
  read_file : String → Call
  write_file : (path content : String) (mode : ℕ) → Call
  remove : String → Call
  rename : (from to : String) → Call
  mkdir_all : String → ℕ → Call
  chown : String → ℤ → ℤ → Call
  chmod : String → ℕ → Call
  close_file : String → Call
  file_info : String → Call
  write_string : (path content : String) → Call
  -- the network
  net_interfaces : Call
  addr_resolver : String → Call
  lookup_ip : String → Call
  lookup_cname : String → Call
  lookup_host : String → Call
  lookup_addr : String → Call
  -- LDAP: a connection is a handle
  ldap_dial : String → Call
  ldap_bind : ℕ → (user password : String) → Call
  ldap_search : ℕ → (base filter : String) (attributes : List String) → Call
  ldap_modify : ℕ → (dn : String) → Change → Call
  ldap_close : ℕ → Call
  -- Consul
  consul_leader : Call
  consul_client : Call
  consul_self : Call
  consul_node_name : Call
  token_read : String → Call
  token_create : Token → Call
  token_update : Token → Call
  -- a policy of that name, if there is one, by its identifier
  policy_read : (name : String) → Call
  token_list : (policy_id : String) → Call
  token_delete : String → Call
  -- systemd
  dbus_connect : Call
  start_unit : (name mode : String) → Call
  unit_result : Call
  enable_unit : String → Call
  dbus_close : Call
  -- the terminal
  -- whether standard input is a terminal
  is_terminal : Call
  make_raw : Call
  term_close : Call
  term_write : String → Call
  read_line : Call
  read_password : (prompt : String) → Call
  -- clock, randomness, and the archive libraries
  now : Call
  sleep : ℕ → Call
  -- a `select` on `time.After(ms)` and on a deadline: true if the deadline comes first
  wait_or_deadline : (ms : ℕ) → Call
  -- a `select` on a result and on `time.After(ms)` since the start: true if the time is over
  time_over : (ms : ℕ) → Call
  random_bytes : ℕ → Call
  armor_decode : (reader : String) → Call
  -- the second argument answers each prompt for a key, and gives the state for the next prompt
  read_message : (body : String) (prompt : Bool → Result String × Bool) → Call
  tar_header : Header → Call
  tar_copy : (path : String) → Call
  tar_write : (bytes : String) → Call
  tar_flush : Call
  tar_close : Call
  pgp_open : (passphrase : String) → Call
  pgp_close : Call
  armor_open : Call
  armor_close : Call

abbrev pub Answer : Call → Type 0
Answer getuid = ℕ
Answer (getenv _) = String
Answer (lookup_env _) = Option String
Answer (exit_process _) = Unit
Answer (log _) = Unit
Answer (print _) = Unit
Answer executable = Result String
Answer (command_output _ _) = Result String
Answer hostname = Result String
Answer (lookup_user _) = Result User
Answer (lookup_group _) = Result Group
Answer (create_temp _ _) = Result String
Answer (read_file _) = Result String
Answer net_interfaces = Result (List String)
Answer (addr_resolver _) = Result (List String)
Answer (lookup_ip _) = Result (List Ip)
Answer (lookup_cname _) = Result String
Answer (lookup_host _) = List String
Answer (lookup_addr _) = List String
Answer (ldap_dial _) = Result (Option ℕ)
Answer (ldap_search _ _ _ _) = Result (List Entry)
Answer consul_leader = Result String
Answer consul_node_name = Result String
Answer (token_read _) = Result Token
Answer (token_create _) = Result Token
Answer (token_update _) = Result Token
Answer (policy_read _) = Result (Option String)
Answer (token_list _) = Result (List ListEntry)
Answer unit_result = String
Answer dbus_close = Unit
Answer is_terminal = Bool
Answer (file_info _) = Result FileInfo
Answer read_line = Result String
Answer (read_password _) = Result String
Answer now = ℕ
Answer (sleep _) = Unit
Answer (wait_or_deadline _) = Bool
Answer (time_over _) = Bool
Answer (random_bytes _) = Result (ℕ × String)
Answer (armor_decode _) = Result String
Answer (read_message _ _) = Result (List Item)
Answer (tar_write _) = Result ℕ
Answer _ = Result (Unit {0})

pub record Env : Type 0 where
  pub reply : (h : List Call) (c : Call) → Answer c
